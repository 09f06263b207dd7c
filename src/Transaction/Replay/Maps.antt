-- ===== src/Transaction/Replay/Maps.antt =====
-- Mutations of maps against the operations that they record.
use automerge_cpp.Prelude.{
  ◌+◌, ◌^◌, ◌<◌, ◌≡◌, refl, sym, ap, ◌∙◌, arith, map, All, Option-cases, Bool-cases, inl, inr,
  subst,
}
use automerge_cpp.Prelude.{true, Option, none, some, List, [], ◌∷◌, ◌++◌}
use automerge_cpp.Prelude.Order.{eqb, bytes_ord, eqb-eq}
use automerge_cpp.Types.{
  obj_id_ord, OpId, ObjId, ObjType, ScalarValue, Str, Op, OpType, Prop, scalar, object, null,
  op_id_ord, op, compare_op_id_refl,
}
use automerge_cpp.OrdMap.{OrdMap, find, erase, assign}
use automerge_cpp.DocState.{
  MapEntry, ObjectState, DocState, contains, get_object, set_object, next_op_id, create_object,
}
use automerge_cpp.DocState.MapOps.{map_pred, or_empty, put_entry, delete_entry}
use automerge_cpp.DocState.Apply.{
  without_pred, apply_action, ensure_nested, advance_counter, apply_map_put, apply_map_delete,
  store_entries,
}
use automerge_cpp.Transaction.Replay.{
  Replays, Replays-push, ensure-scalar, advance-next, apply_op-present,
}
use automerge_cpp.Transaction.{push, Transaction, put, put_object, delete_key}

abbrev ids : List MapEntry → List OpId
ids = map (λ e. e.op_id)

Covered : List OpId → List MapEntry → Type 0
unfolding contains
Covered p = All (λ e. contains p e.op_id ≡ true)

Covered-cons : (i : OpId) (p : List OpId) (es : List MapEntry) → Covered p es → Covered (i ∷ p) es
unfolding Covered
Covered-cons i p [] h = tt
Covered-cons i p (e ∷ es) h = (ground (arith, h.0), Covered-cons i p es h.1)

Covered-ids : (es : List MapEntry) → Covered (ids es) es
unfolding Covered
Covered-ids [] = tt
Covered-ids (e ∷ es) =
    (ground (arith, compare_op_id_refl e.op_id), Covered-cons e.op_id (ids es) es (Covered-ids es))

without-Covered : (p : List OpId) (es : List MapEntry) → Covered p es → without_pred p es ≡ []
unfolding without_pred Covered
without-Covered p [] h = refl
without-Covered p (e ∷ es) h = ground (arith, h.0, without-Covered p es h.1)

-- All entries of a key are overridden by an operation whose predecessors they are.
pub without-ids : (es : List MapEntry) → without_pred (ids es) es ≡ []
without-ids es = without-Covered (ids es) es (Covered-ids es)

erase-absent : {V : Type 0} (k : Str) (m : OrdMap Str V) → find k m ≡ none → erase k m ≡ m
unfolding find erase
erase-absent k [] h = refl
erase-absent k ((j, v) ∷ m) h = ground (arith, erase-absent k m)

put-same :
    (o : Op) (k : Str) (state : ObjectState)
    → o.pred ≡ ids (or_empty (find k state.map_entries))
    → apply_map_put o k state ≡ put_entry k o.id o.value state
unfolding apply_map_put put_entry
put-same o k state h =
    ap
      (λ (es : List MapEntry). record state {
        map_entries =
            assign k (es ++ (record { op_id = o.id; value = o.value } ∷ [])) state.map_entries;
      })
      (ap (λ (p : List OpId). without_pred p (or_empty (find k state.map_entries))) h
        ∙ without-ids (or_empty (find k state.map_entries)))

apply_map_delete-none :
    (o : Op) (k : Str) (state : ObjectState)
    → find k state.map_entries ≡ none
    → apply_map_delete o k state ≡ state
unfolding apply_map_delete
apply_map_delete-none o k state e = ground (arith, e)

apply_map_delete-some :
    (o : Op) (k : Str) (state : ObjectState) (es : List MapEntry)
    → find k state.map_entries ≡ some es
    → apply_map_delete o k state ≡ store_entries k (without_pred o.pred es) state
unfolding apply_map_delete
apply_map_delete-some o k state es e = ground (arith, e)

delete-same :
    (o : Op) (k : Str) (state : ObjectState)
    → o.pred ≡ ids (or_empty (find k state.map_entries))
    → apply_map_delete o k state ≡ delete_entry k state
unfolding delete_entry
delete-same o k state h = elim (Option-cases (find k state.map_entries)) [
  | inl e ↦
      apply_map_delete-none o k state e
      ∙ ap (λ (m : OrdMap Str (List MapEntry)). record state { map_entries = m })
          (sym (erase-absent k state.map_entries e))
  | inr (es, e) ↦
      apply_map_delete-some o k state es e
      ∙ ap (λ (fs : List MapEntry). store_entries k fs state)
          (ap (λ (p : List OpId). without_pred p es)
              (h ∙ ap (λ (x : Option (List MapEntry)). ids (or_empty x)) e)
            ∙ without-ids es)
]

-- The predecessors of an operation on a key are the ids of its entries.
map_pred-ids :
    (obj : ObjId) (key : Str) (s : DocState) {st : ObjectState}
    → get_object obj s ≡ some st
    → map_pred obj key s ≡ ids (or_empty (find key st.map_entries))
unfolding map_pred
map_pred-ids obj key s h = rw (h, map_pred) refl

put_op : ObjId → Str → ScalarValue → Transaction → Op
unfolding map_pred next_op_id
put_op obj key val tx = record {
  id = (next_op_id tx.state).0;
  obj = obj;
  key = Prop.key key;
  action = OpType.put;
  value = scalar val;
  pred = map_pred obj key tx.state;
  insert_after = none;
}

put-inv :
    (obj : ObjId) (key : Str) (val : ScalarValue) (tx : Transaction) {tx' : Transaction}
    → put obj key val tx ≡ some tx'
    → (st : ObjectState) × (get_object obj tx.state ≡ some st)
      × (push tx
            (set_object obj
              (put_entry key (next_op_id tx.state).0 (scalar val) st)
              (next_op_id tx.state).1)
            (put_op obj key val tx)
          ≡ tx')
unfolding put put_op
put-inv obj key val tx e = elim (Option-cases (get_object obj tx.state)) [
  | inl p ↦ ground (arith, p, e)
  | inr (st, p) ↦ (st, p, ground (arith, p, e))
]

-- `put` on a key: another replica in the same state that applies the recorded operation reaches the
-- same state.
pub put-Replays :
    (obj : ObjId) (key : Str) (val : ScalarValue) (tx : Transaction) {tx' : Transaction}
    → tx.state.next_counter + 1 < 2 ^ 64
    → put obj key val tx ≡ some tx'
    → Replays tx tx'
unfolding put_op
put-Replays obj key val tx h e =
    let (st, p, q) = put-inv obj key val tx e in
    subst (Replays tx) q (
      Replays-push tx (put_op obj key val tx) _ (
        apply_op-present (put_op obj key val tx) tx.state (next_op_id tx.state).1 {st = st}
          (ensure-scalar val tx.state h) (unfold next_op_id get_object in p)
          (unfold apply_action in
            put-same (put_op obj key val tx) key st (map_pred-ids obj key tx.state p))))

put_object_op : ObjId → Str → ObjType → Transaction → Op
unfolding map_pred next_op_id
put_object_op obj key type tx = record {
  id = (next_op_id tx.state).0;
  obj = obj;
  key = Prop.key key;
  action = OpType.make_object;
  value = object type;
  pred = map_pred obj key tx.state;
  insert_after = none;
}

-- The state in which `put_object` writes its key.
created : ObjType → DocState → DocState
unfolding next_op_id create_object
created type s = create_object (next_op_id s).0 type (next_op_id s).1

put_object-inv :
    (obj : ObjId) (key : Str) (type : ObjType) (tx : Transaction) {r : ObjId × Transaction}
    → put_object obj key type tx ≡ some r
    → (st : ObjectState) × (get_object obj (created type tx.state) ≡ some st)
      × (push tx
            (set_object obj
              (put_entry key (next_op_id tx.state).0 (object type) st)
              (created type tx.state))
            (put_object_op obj key type tx)
          ≡ r.1)
unfolding put_object put_object_op created
put_object-inv obj key type tx e = elim (Option-cases (get_object obj (created type tx.state))) [
  | inl p ↦ ground (arith, p, e)
  | inr (st, p) ↦ (st, p, ground (arith, p, e))
]

ensure-fresh :
    (id : OpId) (type : ObjType) (s : DocState)
    → get_object (op id) s ≡ none
    → ensure_nested id (object type) s ≡ create_object id type s
unfolding ensure_nested
ensure-fresh id type s h = rw (h, ensure_nested) refl

ensure-created :
    (type : ObjType) (s : DocState)
    → s.next_counter + 1 < 2 ^ 64
    → get_object (op (next_op_id s).0) s ≡ none
    → ensure_nested (next_op_id s).0 (object type) (advance_counter (next_op_id s).0 s)
      ≡ created type s
ensure-created type s h fresh =
    ap (ensure_nested (next_op_id s).0 (object type)) (advance-next s h)
    ∙ unfold created in
      ensure-fresh (next_op_id s).0 type (next_op_id s).1 (unfold next_op_id get_object in fresh)

map_pred-created :
    (obj : ObjId) (key : Str) (type : ObjType) (s : DocState) {st : ObjectState}
    → get_object (op (next_op_id s).0) s ≡ none
    → get_object obj (created type s) ≡ some st
    → map_pred obj key s ≡ ids (or_empty (find key st.map_entries))
unfolding map_pred created set_object
map_pred-created obj key type s fresh h = elim (Bool-cases (eqb obj (op (next_op_id s).0))) [
  | inl e ↦ ground (arith, e, h, fresh, eqb-eq obj (op (next_op_id s).0))
  | inr e ↦ ground (arith, e, h)
]

-- `put_object` on a key, where the new id is not that of an object yet: another replica in the same
-- state that applies the recorded operation reaches the same state.
pub put_object-Replays :
    (obj : ObjId) (key : Str) (type : ObjType) (tx : Transaction) {r : ObjId × Transaction}
    → tx.state.next_counter + 1 < 2 ^ 64
    → get_object (op (next_op_id tx.state).0) tx.state ≡ none
    → put_object obj key type tx ≡ some r
    → Replays tx r.1
unfolding put_object_op
put_object-Replays obj key type tx {r} h fresh e =
    let (st, p, q) = put_object-inv obj key type tx e in
    subst (Replays tx) q (
      Replays-push tx (put_object_op obj key type tx) _ (
        apply_op-present (put_object_op obj key type tx) tx.state (created type tx.state) {st = st}
          (ensure-created type tx.state h fresh) p
          (unfold apply_action in
            put-same (put_object_op obj key type tx) key st
              (map_pred-created obj key type tx.state fresh p))))

delete_op : ObjId → Str → Transaction → Op
unfolding map_pred next_op_id
delete_op obj key tx = record {
  id = (next_op_id tx.state).0;
  obj = obj;
  key = Prop.key key;
  action = OpType.del;
  value = scalar null;
  pred = map_pred obj key tx.state;
  insert_after = none;
}

delete-inv :
    (obj : ObjId) (key : Str) (tx : Transaction) {tx' : Transaction}
    → delete_key obj key tx ≡ some tx'
    → (st : ObjectState) × (get_object obj tx.state ≡ some st)
      × (push tx
            (set_object obj (delete_entry key st) (next_op_id tx.state).1)
            (delete_op obj key tx)
          ≡ tx')
unfolding delete_key delete_op
delete-inv obj key tx e = elim (Option-cases (get_object obj tx.state)) [
  | inl p ↦ ground (arith, p, e)
  | inr (st, p) ↦ (st, p, ground (arith, p, e))
]

-- `delete_key`: another replica in the same state that applies the recorded operation reaches the
-- same state.
pub delete_key-Replays :
    (obj : ObjId) (key : Str) (tx : Transaction) {tx' : Transaction}
    → tx.state.next_counter + 1 < 2 ^ 64
    → delete_key obj key tx ≡ some tx'
    → Replays tx tx'
unfolding delete_op
delete_key-Replays obj key tx h e =
    let (st, p, q) = delete-inv obj key tx e in
    subst (Replays tx) q (
      Replays-push tx (delete_op obj key tx) _ (
        apply_op-present (delete_op obj key tx) tx.state (next_op_id tx.state).1 {st = st}
          (ensure-scalar null tx.state h) (unfold next_op_id get_object in p)
          (unfold apply_action in
            delete-same (delete_op obj key tx) key st (map_pred-ids obj key tx.state p))))
