-- ===== src/DocState/Queries.antt =====
-- The generic queries of src/doc_state.hpp, and where the ends of a mark are.
use automerge_cpp.Prelude.{
  ℕ, ◌+◌, ◌≡◌, refl, sym, ap, ◌∙◌, subst, ◌⊎◌, ◌↔◌, arith, Bool-cases, inl, inr, if◌then◌else◌,
  length, filter, All,
}
use automerge_cpp.Prelude.{true, false, ◌&&◌, Option, none, some, List, [], ◌∷◌, ◌++◌}
use automerge_cpp.Prelude.Order.{eqb, eqb-eq, eqb_refl}
use automerge_cpp.Types.{OpId, ObjId, ObjType, op_id_ord}
use automerge_cpp.DocState.{ListElement, MarkEntry, ObjectState, DocState, get_object}
use automerge_cpp.DocState.ListOps.{list_length}
use automerge_cpp.DocState.Rga.Fresh.{Distinct}

unfoldable pub object_type : ObjId → DocState → Option ObjType
unfolding get_object
object_type obj s = elim (get_object obj s) [ none ↦ none | some state ↦ some state.type ]

abbrev length_by_type : ObjType → ObjectState → ℕ → ℕ
length_by_type ObjType.map state visible = length state.map_entries
length_by_type ObjType.table state visible = length state.map_entries
length_by_type ObjType.list state visible = visible
length_by_type ObjType.text state visible = visible

unfoldable pub object_length : ObjId → DocState → ℕ
unfolding get_object list_length
object_length obj s = elim (get_object obj s) [
  | none ↦ 0
  | some state ↦ length_by_type state.type state (list_length obj s)
]

-- The loop of `resolve_mark_indices`, with its three variables.
unfoldable pub mark_loop :
    MarkEntry → Option ℕ → Option ℕ → ℕ → List ListElement → Option ℕ × Option ℕ
mark_loop entry start_idx end_idx visible_count [] = (start_idx, end_idx)
mark_loop entry start_idx end_idx visible_count (e ∷ es) =
    mark_loop entry
      (if eqb e.insert_id entry.start_elem && e.visible then some visible_count else start_idx)
      (if eqb e.insert_id entry.end_elem && e.visible then some visible_count else end_idx)
      (if e.visible then visible_count + 1 else visible_count) es

-- The end is exclusive.
abbrev mark_range_of : Option ℕ × Option ℕ → Option (ℕ × ℕ)
mark_range_of (some start, some end) = some (start, end + 1)
mark_range_of (_, _) = none

unfoldable pub resolve_mark_indices : ObjectState → MarkEntry → Option (ℕ × ℕ)
unfolding mark_loop
resolve_mark_indices state entry = mark_range_of (mark_loop entry none none 0 state.list_elements)

-- One of the two searches of the loop.
last_seen : OpId → Option ℕ → ℕ → List ListElement → Option ℕ
last_seen id idx visible_count [] = idx
last_seen id idx visible_count (e ∷ es) =
    last_seen id (if eqb e.insert_id id && e.visible then some visible_count else idx)
      (if e.visible then visible_count + 1 else visible_count) es

mark_loop-searches :
    (entry : MarkEntry) (i j : Option ℕ) (n : ℕ) (es : List ListElement)
    → mark_loop entry i j n es
      ≡ (last_seen entry.start_elem i n es, last_seen entry.end_elem j n es)
unfolding mark_loop last_seen
mark_loop-searches entry i j n [] = refl
mark_loop-searches entry i j n (e ∷ es) =
    mark_loop-searches entry (if eqb e.insert_id entry.start_elem && e.visible then some n else i)
      (if eqb e.insert_id entry.end_elem && e.visible then some n else j)
      (if e.visible then n + 1 else n) es

-- Position `i` of the list is, among the visible elements, the one of the element with the id.
pub record IsVisibleAt (id : OpId) (elements : List ListElement) (i : ℕ) : Type 0 where
  pub before : List ListElement
  pub element : ListElement
  pub after : List ListElement
  pub split : elements ≡ before ++ (element ∷ after)
  pub named : element.insert_id ≡ id
  pub shown : element.visible ≡ true
  pub index : i ≡ length (filter (λ e. e.visible) before)

last_seen-absent :
    (id : OpId) (idx : Option ℕ) (n : ℕ) (es : List ListElement)
    → All (λ y. eqb y.insert_id id ≡ false) es
    → last_seen id idx n es ≡ idx
unfolding last_seen
last_seen-absent id idx n [] h = refl
last_seen-absent id idx n (e ∷ es) h =
    rw h.0 (last_seen-absent id idx (if e.visible then n + 1 else n) es h.1)

last_seen-place :
    (idx : Option ℕ) (n : ℕ) (before : List ListElement) (e : ListElement)
    (after : List ListElement)
    → Distinct (before ++ (e ∷ after))
    → e.visible ≡ true
    → last_seen e.insert_id idx n (before ++ (e ∷ after))
      ≡ some (n + length (filter (λ x. x.visible) before))
unfolding last_seen
last_seen-place idx n [] e after d v =
    rw (v, eqb_refl e.insert_id)
      (last_seen-absent e.insert_id (some n) (n + 1) after d.0 ∙ ground arith)
last_seen-place idx n (x ∷ before) e after d v =
    last_seen-place (if eqb x.insert_id e.insert_id && x.visible then some n else idx)
      (if x.visible then n + 1 else n) before e after d.1 v
    ∙ ground arith

-- What the search found is what it began with, or a place of the list.
last_seen-found :
    (id : OpId) (idx : Option ℕ) (n k : ℕ) (es : List ListElement)
    → last_seen id idx n es ≡ some k
    → (idx ≡ some k) ⊎ ((i : ℕ) × (k ≡ n + i) × IsVisibleAt id es i)
unfolding last_seen
last_seen-found id idx n k [] h = inl h
last_seen-found id idx n k (e ∷ es) h =
    elim (last_seen-found id (if eqb e.insert_id id && e.visible then some n else idx)
      (if e.visible then n + 1 else n) k es h) [
        | inl here ↦ elim (Bool-cases (eqb e.insert_id id && e.visible)) [
          | inr other ↦ inl (ground (arith, here, other))
          | inl this ↦
              let sides : (eqb e.insert_id id ≡ true) × (e.visible ≡ true) = ground arith in
              inr (
                0,
                ground (arith, here, this),
                record {
                  before = [];
                  element = e;
                  after = es;
                  split = refl;
                  named = eqb-eq e.insert_id id sides.0;
                  shown = sides.1;
                  index = refl;
                },
              )
        ]
        | inr (i, at, place) ↦ inr (
          if e.visible then i + 1 else i,
          ground arith,
          record {
            before = e ∷ place.before;
            element = place.element;
            after = place.after;
            split = ap (◌∷◌ e) place.split;
            named = place.named;
            shown = place.shown;
            index = ground (arith, place.index);
          },
        )
      ]

last_seen_iff :
    (id : OpId) (k : ℕ) (es : List ListElement)
    → Distinct es
    → (last_seen id none 0 es ≡ some k) ↔ IsVisibleAt id es k
last_seen_iff id k es d = (
  λ h. elim (last_seen-found id none 0 k es h) [
    | inl nothing ↦ absurd (cc (nothing))
    | inr (i, at, place) ↦ subst (λ (j : ℕ). IsVisibleAt id es j) (omega arith) place
  ],
  λ place.
      let whole : Distinct (place.before ++ (place.element ∷ place.after)) =
        subst (λ (l : List ListElement). Distinct l) place.split d in
      rw (place.split, place.index, sym place.named)
        (last_seen-place none 0 place.before place.element place.after whole place.shown
          ∙ ground arith),
)

mark_range_of_iff :
    (i j : Option ℕ) (start finish : ℕ)
    → (mark_range_of (i, j) ≡ some (start, finish))
      ↔ ((i ≡ some start) × ((last : ℕ) × (j ≡ some last) × (finish ≡ last + 1)))
mark_range_of_iff none j start finish = (λ h. cc, λ (h, _). cc)
mark_range_of_iff (some i) none start finish = (λ h. cc, λ (_, (_, h, _)). cc)
mark_range_of_iff (some i) (some j) start finish =
    (λ h. (cc, (j, refl, cc)), λ (a, (last, b, c)). cc)

-- In a list whose elements have distinct ids, a mark resolves to a start and a finish exactly if the
-- element of its start is visible and has the start as its index among the visible elements, and the
-- element of its end is visible and the finish is one above its index. So a mark with an end that
-- is missing or deleted resolves to nothing.
pub resolve_mark_indices_iff :
    (state : ObjectState) (entry : MarkEntry) (start finish : ℕ)
    → Distinct state.list_elements
    → (resolve_mark_indices state entry ≡ some (start, finish)) ↔ (
        IsVisibleAt entry.start_elem state.list_elements start
        × ((last : ℕ) × IsVisibleAt entry.end_elem state.list_elements last × (finish ≡ last + 1)))
unfolding resolve_mark_indices
resolve_mark_indices_iff state entry start finish d =
    let es = state.list_elements in
    let range =
      mark_range_of_iff (last_seen entry.start_elem none 0 es) (last_seen entry.end_elem none 0 es)
        start finish in
    let first = last_seen_iff entry.start_elem start es d in
    let final = λ (k : ℕ). last_seen_iff entry.end_elem k es d in
    rw (mark_loop-searches entry none none 0 es) (
      λ h. let (s, (last, e, f)) = range.0 h in (first.0 s, (last, (final last).0 e, f)),
      λ (s, (last, e, f)). range.1 (first.1 s, (last, (final last).1 e, f)),
    )
