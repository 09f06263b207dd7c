-- ===== src/Document/Reads/Cursors.antt =====
-- A cursor and the index that it resolves to.
use automerge_cpp.Prelude.{
  ℕ, zero, suc, ◌+◌, ◌<◌, ◌≡◌, refl, ap, ◌∙◌, arith, if◌then◌else◌, All, get_elem?, ◌>>=◌,
}
use automerge_cpp.Prelude.{true, false, Option, none, some, List, [], ◌∷◌}
use automerge_cpp.Prelude.Order.{eqb, eqb_refl, eqb_comm}
use automerge_cpp.Types.{OpId, ObjId, op_id_ord}
use automerge_cpp.DocState.{DocState, ObjectState, ListElement, get_object}
use automerge_cpp.DocState.ListOps.{
  visible_index_to_real, count_visible, list_length, visible_position, list_element_id_at,
  find_element_visible_index, element_at,
}
use automerge_cpp.DocState.Rga.Fresh.{Distinct, visible-get_elem?}
use automerge_cpp.Document.Reads.{cursor, resolve_cursor}

-- The element at a visible index, whose place is that index.
abbrev position_at : List ListElement → List ListElement → ℕ → ℕ → Option ℕ
position_at all es i n = elim (get_elem? es (visible_index_to_real es i)) [
  | none ↦ none
  | some e ↦ visible_position e.insert_id n all
]

other-place :
    (x : ListElement) (i n : ℕ) (es ys : List ListElement)
    → All (λ y. eqb y.insert_id x.insert_id ≡ false) ys
    → position_at (x ∷ es) ys i n ≡ position_at es ys i (if x.visible then n + 1 else n)
unfolding visible_position visible_index_to_real
other-place x i n es [] absent = refl
other-place x zero n es (y ∷ ys) absent =
    ground (arith, eqb_comm x.insert_id y.insert_id, absent.0, other-place x zero n es ys absent.1)
other-place x (suc i) n es (y ∷ ys) absent = ground (
  arith,
  eqb_comm x.insert_id y.insert_id,
  absent.0,
  other-place x (if y.visible then i else suc i) n es ys absent.1,
)

position-index :
    (es : List ListElement) (i n : ℕ)
    → Distinct es
    → i < count_visible es
    → position_at es es i n ≡ some (n + i)
unfolding visible_position visible_index_to_real count_visible
position-index [] i n d h = absurd (omega arith)
position-index (x ∷ es) zero n d h =
    ground
      (arith, eqb_refl x.insert_id, other-place x zero n es es d.0, position-index es zero n d.1)
position-index (x ∷ es) (suc i) n d h = ground (
  arith,
  other-place x (if x.visible then i else suc i) n es es d.0,
  position-index es (if x.visible then i else suc i) (if x.visible then n + 1 else n) d.1,
)

module _ (obj : ObjId) (s : DocState) {st : ObjectState} (there : get_object obj s ≡ some st) where
  length-get : list_length obj s ≡ count_visible st.list_elements
  unfolding list_length get_object
  length-get = rw (list_length, there) refl

  cursor-get :
      (index : ℕ) {e : ListElement}
      → get_elem? st.list_elements (visible_index_to_real st.list_elements index) ≡ some e
      → e.visible ≡ true
      → cursor obj index s ≡ some (record { position = e.insert_id })
  unfolding cursor list_element_id_at get_object
  cursor-get index at seen = rw (cursor, list_element_id_at, element_at, there, at, seen) refl

  resolve-get :
      (id : OpId)
      → resolve_cursor obj (record { position = id }) s ≡ visible_position id 0 st.list_elements
  unfolding resolve_cursor find_element_visible_index get_object
  resolve-get id = rw (resolve_cursor, find_element_visible_index, there) refl

-- A cursor at a visible index of a list, whose elements have distinct ids, is there, and resolves to
-- that index in the same document.
pub resolve_cursor-cursor :
    (obj : ObjId) (index : ℕ) (s : DocState) {st : ObjectState}
    → get_object obj s ≡ some st
    → Distinct st.list_elements
    → index < list_length obj s
    → (do cur ← cursor obj index s; resolve_cursor obj cur s) ≡ some index
resolve_cursor-cursor obj index s {st} there d h =
    let below : index < count_visible st.list_elements = omega (arith, length-get obj s there) in
    let (e, at, seen) = visible-get_elem? index st.list_elements below in
    let place : visible_position e.insert_id 0 st.list_elements ≡ some (0 + index) =
      rw (position_at, at) at (position-index st.list_elements index 0 d below) in
    rw (cursor-get obj s there index at seen)
      (resolve-get obj s there e.insert_id ∙ place ∙ ap some (omega arith))
