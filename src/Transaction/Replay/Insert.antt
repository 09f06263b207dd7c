-- ===== src/Transaction/Replay/Insert.antt =====
-- `insert` into a list against the operation that it records.
use automerge_cpp.Prelude.{
  ℕ, zero, suc, ◌+◌, ◌^◌, ◌≤◌, ◌<◌, ◌≡◌, ◌↔◌, refl, sym, ap, ◌∙◌, arith, insert_at, length,
}
use automerge_cpp.Prelude.{true, Option, none, some, List, [], ◌∷◌, ◌++◌}
use automerge_cpp.Types.{
  OpId, ObjId, ScalarValue, Value, Op, OpType, Prop, scalar, op_id_ord, obj_id_ord,
  compare_obj_id_refl,
}
use automerge_cpp.DocState.{ListElement, ObjectState, DocState, get_object, set_object, next_op_id}
use automerge_cpp.DocState.ListOps.{
  visible_index_to_real, count_visible, insert_after_for, insert_element,
}
use automerge_cpp.DocState.Rga.{find_rga_position, index_behind}
use automerge_cpp.DocState.Rga.Fresh.{
  Distinct, IsNewest, IsTight, origin_of, find_rga_position_iff, find_rga_position-le-length,
  visible-le-length, index_behind-insert_at,
}
use automerge_cpp.DocState.Apply.{apply_op, apply_action, apply_insert}
use automerge_cpp.Transaction.{Transaction, push, insert}
use automerge_cpp.Transaction.Replay.{ensure-scalar, apply_op-present}

insert_op : ObjId → ℕ → ScalarValue → Transaction → Op
unfolding insert_after_for next_op_id
insert_op obj index val tx = record {
  id = (next_op_id tx.state).0;
  obj = obj;
  key = Prop.index index;
  action = OpType.insert;
  value = scalar val;
  pred = [];
  insert_after = insert_after_for obj index tx.state;
}

abbrev new_element : OpId → Option OpId → Value → ListElement
new_element id after value = record {
  insert_id = id;
  insert_after = after;
  value = value;
  visible = true;
}

-- What a successful `insert` does to the state.
inserted : ObjId → ℕ → ScalarValue → DocState → ObjectState → DocState
unfolding insert_after_for next_op_id
inserted obj index val s st =
    set_object obj
      (insert_element index
        (new_element (next_op_id s).0 (insert_after_for obj index s) (scalar val)) st)
      (next_op_id s).1

insert-eq :
    (obj : ObjId) (index : ℕ) (val : ScalarValue) (tx : Transaction) {tx' : Transaction}
    (st : ObjectState)
    → get_object obj tx.state ≡ some st
    → insert obj index val tx ≡ some tx'
    → push tx (inserted obj index val tx.state st) (insert_op obj index val tx) ≡ tx'
unfolding insert insert_op inserted
insert-eq obj index val tx st p e = ground (arith, p, e)

-- The recorded origin is that of the elements of the object.
insert_after-origin :
    (obj : ObjId) (index : ℕ) (s : DocState) {st : ObjectState}
    → get_object obj s ≡ some st
    → insert_after_for obj index s ≡ origin_of st.list_elements index
unfolding insert_after_for origin_of
insert_after-origin obj zero s h = refl
insert_after-origin obj (suc index) s {st} h = rw (h, insert_after_for) refl

-- On the elements: the place of the recorded operation is the local one exactly when the lists with
-- the new element are equal.
insert_at_iff :
    (p q : ℕ) (x : ListElement) (elements : List ListElement)
    → p ≤ length elements
    → q ≤ length elements
    → IsNewest x.insert_id elements
    → (insert_at p x elements ≡ insert_at q x elements) ↔ (p ≡ q)
insert_at_iff p q x elements hp hq n = (
  λ e. cc (
    index_behind-insert_at p x elements hp n,
    index_behind-insert_at q x elements hq n,
    ap (index_behind x.insert_id) e,
  ),
  λ e. ap (λ (i : ℕ). insert_at i x elements) e,
)

elements_of : Option ObjectState → List ListElement
elements_of none = []
elements_of (some st) = st.list_elements

set_object-elements :
    (obj : ObjId) (a b : ObjectState) (s : DocState)
    → set_object obj a s ≡ set_object obj b s
    → a.list_elements ≡ b.list_elements
set_object-elements obj a b s e =
    sym (elements_of-set obj a s)
    ∙ ap (λ (t : DocState). elements_of (get_object obj t)) e
    ∙ elements_of-set obj b s
  where
    elements_of-set :
        (obj : ObjId) (a : ObjectState) (s : DocState)
        → elements_of (get_object obj (set_object obj a s)) ≡ a.list_elements
    elements_of-set obj a s =
        unfold elements_of get_object set_object in ground (arith, compare_obj_id_refl obj)

module _ (obj : ObjId) (index : ℕ) (val : ScalarValue) (tx : Transaction) (st : ObjectState)
    (room : tx.state.next_counter + 1 < 2 ^ 64) (present : get_object obj tx.state ≡ some st)
    (distinct : Distinct st.list_elements)
    (newest : IsNewest (next_op_id tx.state).0 st.list_elements)
    (in_range : index ≤ count_visible st.list_elements) where
  elem : ListElement
  elem = new_element (next_op_id tx.state).0 (insert_after_for obj index tx.state) (scalar val)

  remote_place : ℕ
  remote_place =
      find_rga_position st.list_elements (insert_after_for obj index tx.state)
        (next_op_id tx.state).0

  place_iff :
      (remote_place ≡ visible_index_to_real st.list_elements index) ↔ IsTight st.list_elements index
  unfolding remote_place
  place_iff = rw (insert_after-origin obj index tx.state present) (
      find_rga_position_iff index st.list_elements (next_op_id tx.state).0 distinct newest in_range)

  lists_iff :
      (insert_at remote_place elem st.list_elements
        ≡ insert_at (visible_index_to_real st.list_elements index) elem st.list_elements)
      ↔ (remote_place ≡ visible_index_to_real st.list_elements index)
  unfolding remote_place elem
  lists_iff =
      insert_at_iff _ _ elem st.list_elements
        (find_rga_position-le-length st.list_elements (insert_after_for obj index tx.state)
          (next_op_id tx.state).0)
        (visible-le-length st.list_elements index) newest

  applied :
      apply_op (insert_op obj index val tx) tx.state
      ≡ set_object obj
          (record st { list_elements = insert_at remote_place elem st.list_elements })
          (next_op_id tx.state).1
  unfolding insert_op remote_place elem
  applied =
      apply_op-present (insert_op obj index val tx) tx.state (next_op_id tx.state).1 {st = st}
        (ensure-scalar val tx.state room) (unfold next_op_id get_object in present)
        (unfold apply_action apply_insert in refl)

  with_elements : List ListElement → DocState
  with_elements l = set_object obj (record st { list_elements = l }) (next_op_id tx.state).1

  inserted_lem :
      inserted obj index val tx.state st
      ≡ with_elements
          (insert_at (visible_index_to_real st.list_elements index) elem st.list_elements)
  unfolding inserted insert_element elem with_elements
  inserted_lem = refl

  same_state_iff :
      (apply_op (insert_op obj index val tx) tx.state ≡ inserted obj index val tx.state st)
      ↔ IsTight st.list_elements index
  unfolding with_elements
  same_state_iff = (
    λ e. place_iff.0 (
        lists_iff.0 (
          set_object-elements obj
            (record st { list_elements = insert_at remote_place elem st.list_elements })
            (record st {
              list_elements =
                  insert_at (visible_index_to_real st.list_elements index) elem st.list_elements;
            })
            (next_op_id tx.state).1 (sym applied ∙ e ∙ inserted_lem))),
    λ t. applied ∙ ap with_elements (lists_iff.1 (place_iff.1 t)) ∙ sym inserted_lem,
  )

-- `insert` at an index up to the length, into a list whose elements have distinct ids below the new
-- one: one operation is recorded, and another replica in the same state that applies it reaches the
-- same state exactly when no tombstone stands right before the place of the new element.
pub insert-Replays_iff :
    (obj : ObjId) (index : ℕ) (val : ScalarValue) (tx : Transaction) {tx' : Transaction}
    (st : ObjectState)
    → tx.state.next_counter + 1 < 2 ^ 64
    → get_object obj tx.state ≡ some st
    → Distinct st.list_elements
    → IsNewest (next_op_id tx.state).0 st.list_elements
    → index ≤ count_visible st.list_elements
    → insert obj index val tx ≡ some tx'
    → (o : Op) × (tx'.pending_ops ≡ tx.pending_ops ++ (o ∷ []))
      × ((apply_op o tx.state ≡ tx'.state) ↔ IsTight st.list_elements index)
insert-Replays_iff obj index val tx {tx'} st h p d n hi e =
    let q = insert-eq obj index val tx st p e in
    let r = ap (λ (t : Transaction). t.state) q in
    let (f, g) = same_state_iff obj index val tx st h p d n hi in
    (
      insert_op obj index val tx,
      ap (λ (t : Transaction). t.pending_ops) (sym q),
      (λ x. f (x ∙ sym r), λ t. g t ∙ r),
    )
