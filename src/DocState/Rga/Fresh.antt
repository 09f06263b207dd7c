-- ===== src/DocState/Rga/Fresh.antt =====
-- `find_rga_position` for an element that is newer than all that are there, against the place where
-- a local insert puts it.
use mathlib.Core.Option.{some-injective}
use automerge_cpp.Prelude.{
  ℕ, zero, suc, ◌+◌, ◌≤◌, ◌<◌, ◌≡◌, ◌↔◌, refl, sym, ◌∙◌, arith, if◌then◌else◌, length, drop,
  get_elem?, insert_at, All, Bool-cases, Option-cases, inl, inr, subst,
}
use automerge_cpp.Prelude.{true, false, Option, none, some, List, [], ◌∷◌}
use automerge_cpp.Prelude.Order.{eqb, lessb}
use automerge_cpp.Types.{OpId, op_id_ord, compare_op_id_refl, compare_op_id-flip}
use automerge_cpp.DocState.{ListElement}
use automerge_cpp.DocState.ListOps.{visible_index_to_real, count_visible}
use automerge_cpp.DocState.Rga.{same_origin, origin_in, index_behind, scan_right, find_rga_position}

-- No element has the id of a later one.
abbrev pub Distinct : List ListElement → Type 0
Distinct [] = Unit
Distinct (e ∷ es) = All (λ x. eqb x.insert_id e.insert_id ≡ false) es × Distinct es

-- The id is above that of every element.
abbrev pub IsNewest : OpId → List ListElement → Type 0
IsNewest id = All (λ e. lessb e.insert_id id ≡ true)

-- `insert_after_for` on the elements.
unfoldable pub origin_of : List ListElement → ℕ → Option OpId
unfolding visible_index_to_real
origin_of elements zero = none
origin_of elements (suc index) = elim (get_elem? elements (visible_index_to_real elements index)) [
  | none ↦ none
  | some e ↦ some e.insert_id
]

-- No tombstone stands between the element before the index and the element at the index.
abbrev pub IsTight : List ListElement → ℕ → Type 0
IsTight elements zero = visible_index_to_real elements 0 ≡ 0
IsTight elements (suc index) =
    visible_index_to_real elements (suc index) ≡ suc (visible_index_to_real elements index)

scan-head :
    (new_id : OpId) (elements : List ListElement)
    → IsNewest new_id elements
    → scan_right none new_id [] elements ≡ 0
unfolding scan_right
scan-head new_id [] h = refl
scan-head new_id (e ∷ es) h = ground (arith, h.0, compare_op_id-flip e.insert_id new_id)

-- The scan starts with the origin alone, so that only its own children count as scanned.
same-origin_in :
    (after : Option OpId) (origin : OpId)
    → origin_in (origin ∷ []) after ≡ same_origin after (some origin)
unfolding origin_in same_origin
same-origin_in none origin = refl
same-origin_in (some a) origin = ground (arith, compare_op_id-flip a origin)

scan-behind :
    (new_id origin : OpId) (elements : List ListElement)
    → IsNewest new_id elements
    → scan_right (some origin) new_id (origin ∷ []) elements ≡ 0
unfolding scan_right
scan-behind new_id origin [] h = refl
scan-behind new_id origin (e ∷ es) h =
    ground (arith, h.0, compare_op_id-flip e.insert_id new_id, same-origin_in e.insert_after origin)

All-drop {ℓ} : {A : Type 0} (P : A → Type ℓ) (n : ℕ) (xs : List A) → All P xs → All P (drop n xs)
All-drop P zero xs h = h
All-drop P (suc n) [] h = h
All-drop P (suc n) (x ∷ xs) h = All-drop P n xs h.1

pub All-get_elem? {ℓ} :
    {A : Type 0} (P : A → Type ℓ) (i : ℕ) (xs : List A) {x : A}
    → All P xs
    → get_elem? xs i ≡ some x
    → P x
All-get_elem? P i [] h e = cc
All-get_elem? P zero (y ∷ ys) {x} h e = subst P (some-injective y x e) h.0
All-get_elem? P (suc i) (y ∷ ys) h e = All-get_elem? P i ys h.1 e

-- With distinct ids the search for the origin finds its own index.
index_behind-get_elem? :
    (i : ℕ) (elements : List ListElement) {e : ListElement}
    → Distinct elements
    → get_elem? elements i ≡ some e
    → index_behind e.insert_id elements ≡ some (suc i)
unfolding index_behind
index_behind-get_elem? i [] d h = cc
index_behind-get_elem? zero (x ∷ xs) {e} d h = ground (arith, h, compare_op_id_refl e.insert_id)
index_behind-get_elem? (suc i) (x ∷ xs) {e} d h = ground (
  arith,
  All-get_elem? (λ y. eqb y.insert_id x.insert_id ≡ false) i xs d.0 h,
  compare_op_id-flip e.insert_id x.insert_id,
  index_behind-get_elem? i xs d.1 h,
)

-- Below the number of visible elements an index leads to a visible element.
pub visible-get_elem? :
    (index : ℕ) (elements : List ListElement)
    → index < count_visible elements
    → (e : ListElement) × (get_elem? elements (visible_index_to_real elements index) ≡ some e)
      × (e.visible ≡ true)
unfolding visible_index_to_real count_visible
visible-get_elem? index [] h = absurd (omega arith)
visible-get_elem? zero (e ∷ es) h = elim (Bool-cases e.visible) [
  | inl v ↦ (e, ground (arith, v), v)
  | inr v ↦
      let (x, p, q) = visible-get_elem? zero es (ground (arith, v)) in (x, ground (arith, v, p), q)
]
visible-get_elem? (suc index) (e ∷ es) h =
    visible-get_elem? (if e.visible then index else suc index) es (ground arith)

-- The place of a new element behind its origin.
position :
    (index : ℕ) (elements : List ListElement) (new_id : OpId)
    → Distinct elements
    → IsNewest new_id elements
    → index < count_visible elements
    → find_rga_position elements (origin_of elements (suc index)) new_id
      ≡ suc (visible_index_to_real elements index)
unfolding find_rga_position origin_of
position index elements new_id d n h =
    let (e, p, v) = visible-get_elem? index elements h in
    rw
      (
        p,
        find_rga_position,
        index_behind-get_elem? (visible_index_to_real elements index) elements d p,
      )
      (omega (
        arith,
        scan-behind new_id e.insert_id (drop (suc (visible_index_to_real elements index)) elements)
            (All-drop (λ x. lessb x.insert_id new_id ≡ true)
              (suc (visible_index_to_real elements index)) elements n),
      ))

-- For an index up to the number of visible elements, an element with the newest id and the recorded
-- origin goes where the local insert puts it exactly when no tombstone stands before that place.
pub find_rga_position_iff :
    (index : ℕ) (elements : List ListElement) (new_id : OpId)
    → Distinct elements
    → IsNewest new_id elements
    → index ≤ count_visible elements
    → (find_rga_position elements (origin_of elements index) new_id
        ≡ visible_index_to_real elements index)
      ↔ IsTight elements index
unfolding origin_of
find_rga_position_iff zero elements new_id d n h =
    let e : find_rga_position elements none new_id ≡ 0 =
      unfold find_rga_position in scan-head new_id elements n in
    (λ p. sym p ∙ e, λ p. e ∙ sym p)
find_rga_position_iff (suc index) elements new_id d n h =
    let e : find_rga_position elements (origin_of elements (suc index)) new_id
        ≡ suc (visible_index_to_real elements index) =
      position index elements new_id d n h in
    rw e (sym, sym)

pub visible-le-length :
    (elements : List ListElement) (index : ℕ)
    → visible_index_to_real elements index ≤ length elements
unfolding visible_index_to_real
visible-le-length [] index = omega arith
visible-le-length (e ∷ es) zero = ground (arith, visible-le-length es 0)
visible-le-length (e ∷ es) (suc index) =
    ground (arith, visible-le-length es (if e.visible then index else suc index))

scan-le-length :
    (origin : Option OpId) (new_id : OpId) (scanned : List OpId) (elements : List ListElement)
    → scan_right origin new_id scanned elements ≤ length elements
unfolding scan_right
scan-le-length origin new_id scanned [] = omega arith
scan-le-length origin new_id scanned (e ∷ es) =
    ground (arith, scan-le-length origin new_id (e.insert_id ∷ scanned) es)

index_behind-bounds :
    (origin : OpId) (elements : List ListElement) {i : ℕ}
    → index_behind origin elements ≡ some i
    → i + length (drop i elements) ≡ length elements
unfolding index_behind
index_behind-bounds origin [] h = cc
index_behind-bounds origin (e ∷ es) {i} h = elim (Bool-cases (eqb e.insert_id origin)) [
  | inl t ↦ let one : i ≡ 1 = ground (arith, t) in rw one (omega arith)
  | inr f ↦ elim (Option-cases (index_behind origin es)) [
    | inl p ↦ absurd (ground (arith, f, p))
    | inr (k, p) ↦
        let next : i ≡ suc k = ground (arith, f, p) in
        rw next (omega (arith, index_behind-bounds origin es p))
  ]
]

-- The position never lies past the end of the sequence.
pub find_rga_position-le-length :
    (elements : List ListElement) (origin : Option OpId) (new_id : OpId)
    → find_rga_position elements origin new_id ≤ length elements
unfolding find_rga_position
find_rga_position-le-length elements none new_id = scan-le-length none new_id [] elements
find_rga_position-le-length elements (some origin) new_id =
    elim (Option-cases (index_behind origin elements)) [
      | inl e ↦ rw (e, find_rga_position) (omega arith)
      | inr (i, e) ↦
          rw (e, find_rga_position)
            (omega (
              arith,
              index_behind-bounds origin elements e,
              scan-le-length (some origin) new_id (origin ∷ []) (drop i elements),
            ))
    ]

-- A new element is found where it was inserted.
pub index_behind-insert_at :
    (p : ℕ) (x : ListElement) (elements : List ListElement)
    → p ≤ length elements
    → IsNewest x.insert_id elements
    → index_behind x.insert_id (insert_at p x elements) ≡ some (suc p)
unfolding index_behind
index_behind-insert_at zero x elements h n = ground (arith, compare_op_id_refl x.insert_id)
index_behind-insert_at (suc p) x [] h n = absurd (omega arith)
index_behind-insert_at (suc p) x (e ∷ es) h n =
    ground (arith, n.0, index_behind-insert_at p x es (omega arith) n.1)
