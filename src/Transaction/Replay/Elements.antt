-- ===== src/Transaction/Replay/Elements.antt =====
-- `set` and `delete_index` on a list against the operations that they record.
use automerge_cpp.Prelude.{
  ℕ, zero, suc, ◌+◌, ◌^◌, ◌<◌, ◌≡◌, refl, ap, ◌∙◌, arith, Option-cases, inl, inr, subst, get_elem?,
}
use automerge_cpp.Prelude.{false, none, some, List, [], ◌∷◌}
use automerge_cpp.Prelude.Order.{eqb}
use automerge_cpp.Types.{
  OpId, ObjId, ScalarValue, Op, OpType, Prop, scalar, null, op_id_ord, obj_id_ord,
  compare_op_id_refl,
}
use automerge_cpp.DocState.{ListElement, ObjectState, DocState, get_object, set_object, next_op_id}
use automerge_cpp.DocState.ListOps.{visible_index_to_real, modify_at, list_pred}
use automerge_cpp.DocState.Rga.Fresh.{Distinct, All-get_elem?}
use automerge_cpp.DocState.Apply.{apply_action, apply_list_set, apply_list_delete, modify_first}
use automerge_cpp.Transaction.{Transaction, push, set, delete_index}
use automerge_cpp.Transaction.Replay.{Replays, Replays-push, ensure-scalar, apply_op-present}

set_op : ObjId → ℕ → ScalarValue → Transaction → Op
unfolding list_pred next_op_id
set_op obj index val tx = record {
  id = (next_op_id tx.state).0;
  obj = obj;
  key = Prop.index index;
  action = OpType.put;
  value = scalar val;
  pred = list_pred obj index tx.state;
  insert_after = none;
}

delete_index_op : ObjId → ℕ → Transaction → Op
unfolding list_pred next_op_id
delete_index_op obj index tx = record {
  id = (next_op_id tx.state).0;
  obj = obj;
  key = Prop.index index;
  action = OpType.del;
  value = scalar null;
  pred = list_pred obj index tx.state;
  insert_after = none;
}

-- A write by index reaches the element that the recorded id names, if no two have that id.
modify-same :
    (i : ℕ) (f : ListElement → ListElement) (elements : List ListElement)
    {elements' : List ListElement}
    → Distinct elements
    → modify_at i f elements ≡ some elements'
    → (e : ListElement) × (get_elem? elements i ≡ some e)
      × (modify_first (e.insert_id ∷ []) f elements ≡ elements')
unfolding modify_at modify_first
modify-same i f [] d h = cc
modify-same zero f (x ∷ xs) d h = (x, refl, ground (arith, compare_op_id_refl x.insert_id))
modify-same (suc i) f (x ∷ xs) d h = elim (Option-cases (modify_at i f xs)) [
  | inl p ↦ absurd (ground (arith, p))
  | inr (xs', p) ↦
      let (e, q, r) = modify-same i f xs d.1 p in
      (
        e,
        q,
        ground (arith, p, r, All-get_elem? (λ y. eqb y.insert_id x.insert_id ≡ false) i xs d.0 q),
      )
]

list_pred-id :
    (obj : ObjId) (index : ℕ) (s : DocState) {st : ObjectState} {e : ListElement}
    → get_object obj s ≡ some st
    → get_elem? st.list_elements (visible_index_to_real st.list_elements index) ≡ some e
    → list_pred obj index s ≡ e.insert_id ∷ []
unfolding list_pred
list_pred-id obj index s h k = ground (arith, h, k)

set-eq :
    (obj : ObjId) (index : ℕ) (val : ScalarValue) (tx : Transaction) {tx' : Transaction}
    (st : ObjectState)
    → get_object obj tx.state ≡ some st
    → set obj index val tx ≡ some tx'
    → (l : List ListElement) × (modify_at
          (visible_index_to_real st.list_elements index)
          (λ e. record e { value = scalar val })
          st.list_elements
        ≡ some l)
      × (push tx
            (set_object obj (record st { list_elements = l }) (next_op_id tx.state).1)
            (set_op obj index val tx)
          ≡ tx')
unfolding set set_op
set-eq obj index val tx st p e =
    elim (Option-cases (
      modify_at (visible_index_to_real st.list_elements index)
        (λ e. record e { value = scalar val }) st.list_elements)) [
          | inl m ↦ absurd (ground (arith, p, e, m))
          | inr (l, m) ↦ (l, m, ground (arith, p, e, m))
        ]

delete_index-eq :
    (obj : ObjId) (index : ℕ) (tx : Transaction) {tx' : Transaction} (st : ObjectState)
    → get_object obj tx.state ≡ some st
    → delete_index obj index tx ≡ some tx'
    → (l : List ListElement) × (modify_at
          (visible_index_to_real st.list_elements index)
          (λ e. record e { visible = false })
          st.list_elements
        ≡ some l)
      × (push tx
            (set_object obj (record st { list_elements = l }) (next_op_id tx.state).1)
            (delete_index_op obj index tx)
          ≡ tx')
unfolding delete_index delete_index_op
delete_index-eq obj index tx st p e =
    elim (Option-cases (
      modify_at (visible_index_to_real st.list_elements index) (λ e. record e { visible = false })
        st.list_elements)) [
          | inl m ↦ absurd (ground (arith, p, e, m))
          | inr (l, m) ↦ (l, m, ground (arith, p, e, m))
        ]

-- `set` in a list whose elements have distinct ids: another replica in the same state that applies
-- the recorded operation reaches the same state.
pub set-Replays :
    (obj : ObjId) (index : ℕ) (val : ScalarValue) (tx : Transaction) {tx' : Transaction}
    (st : ObjectState)
    → tx.state.next_counter + 1 < 2 ^ 64
    → get_object obj tx.state ≡ some st
    → Distinct st.list_elements
    → set obj index val tx ≡ some tx'
    → Replays tx tx'
unfolding set_op
set-Replays obj index val tx st h p d e =
    let (l, m, q) = set-eq obj index val tx st p e in
    let (x, g, r) =
      modify-same (visible_index_to_real st.list_elements index)
        (λ (e : ListElement). record e { value = scalar val }) st.list_elements d m in
    subst (Replays tx) q (
      Replays-push tx (set_op obj index val tx) _ (
        apply_op-present (set_op obj index val tx) tx.state (next_op_id tx.state).1 {st = st}
          {st' = record st { list_elements = l }} (ensure-scalar val tx.state h)
          (unfold next_op_id get_object in p)
          (unfold apply_action apply_list_set in
            ap (λ (es : List ListElement). record st { list_elements = es })
              (ap
                  (λ (ids : List OpId).
                    modify_first ids (λ (e : ListElement). record e { value = scalar val })
                      st.list_elements)
                  (list_pred-id obj index tx.state p g)
                ∙ r))))

-- `delete_index` in a list whose elements have distinct ids: another replica in the same state that applies
-- the recorded operation reaches the same state.
pub delete_index-Replays :
    (obj : ObjId) (index : ℕ) (tx : Transaction) {tx' : Transaction} (st : ObjectState)
    → tx.state.next_counter + 1 < 2 ^ 64
    → get_object obj tx.state ≡ some st
    → Distinct st.list_elements
    → delete_index obj index tx ≡ some tx'
    → Replays tx tx'
unfolding delete_index_op
delete_index-Replays obj index tx st h p d e =
    let (l, m, q) = delete_index-eq obj index tx st p e in
    let (x, g, r) =
      modify-same (visible_index_to_real st.list_elements index)
        (λ (e : ListElement). record e { visible = false }) st.list_elements d m in
    subst (Replays tx) q (
      Replays-push tx (delete_index_op obj index tx) _ (
        apply_op-present (delete_index_op obj index tx) tx.state (next_op_id tx.state).1 {st = st}
          {st' = record st { list_elements = l }} (ensure-scalar null tx.state h)
          (unfold next_op_id get_object in p)
          (unfold apply_action apply_list_delete in
            ap (λ (es : List ListElement). record st { list_elements = es })
              (ap
                  (λ (ids : List OpId).
                    modify_first ids (λ (e : ListElement). record e { visible = false })
                      st.list_elements)
                  (list_pred-id obj index tx.state p g)
                ∙ r))))
