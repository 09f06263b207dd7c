-- ===== src/Transaction.antt =====
-- src/transaction.cpp: the mutations of a transaction. Each one changes the state and records an
-- operation for the other replicas. `none` is a failed `assert`.
pub mod Replay
pub mod Commit
use automerge_cpp.Prelude.{ℕ, zero, suc, ◌+◌, ◌-◌, if◌then◌else◌, ltb, ◌>>=◌}
use automerge_cpp.Prelude.{Option, none, some, List, [], ◌∷◌, ◌++◌}
use automerge_cpp.Types.{
  OpId, ObjId, ObjType, ScalarValue, Prop, Op, OpType, Str, scalar, object, op, counter, null,
  string,
}
use automerge_cpp.DocState.{DocState, next_op_id, create_object}
use automerge_cpp.DocState.MapOps.{map_pred, map_put, map_delete, counter_increment}
use automerge_cpp.DocState.ListOps.{
  list_pred, insert_after_for, list_insert, list_set, list_delete, mark_range, list_element_id_at,
}

-- The state is the document's own, by reference.
pub record Transaction : Type 0 where
  pub state : DocState
  pub start_op : ℕ
  pub pending_ops : List Op

-- The constructor.
unfoldable pub begin : DocState → Transaction
begin state = record { state = state; start_op = state.next_counter; pending_ops = [] }

-- The end of every mutation: the new state, and the operation behind the pending ones.
abbrev pub push : Transaction → DocState → Op → Transaction
push tx state o = record tx { state = state; pending_ops = tx.pending_ops ++ (o ∷ []) }

unfoldable pub put : ObjId → Str → ScalarValue → Transaction → Option Transaction
unfolding map_pred next_op_id map_put
put obj key val tx = do
  let pred = map_pred obj key tx.state
  let (op_id, s) = next_op_id tx.state
  s' ← map_put obj key op_id (scalar val) s
  some (
      push tx s' (record {
        id = op_id;
        obj = obj;
        key = Prop.key key;
        action = OpType.put;
        value = scalar val;
        pred = pred;
        insert_after = none;
      }))

unfoldable pub put_object : ObjId → Str → ObjType → Transaction → Option (ObjId × Transaction)
unfolding map_pred next_op_id create_object map_put
put_object obj key type tx = do
  let pred = map_pred obj key tx.state
  let (op_id, s) = next_op_id tx.state
  s' ← map_put obj key op_id (object type) (create_object op_id type s)
  some (
    op op_id,
    push tx s' (record {
      id = op_id;
      obj = obj;
      key = Prop.key key;
      action = OpType.make_object;
      value = object type;
      pred = pred;
      insert_after = none;
    }),
  )

unfoldable pub delete_key : ObjId → Str → Transaction → Option Transaction
unfolding map_pred next_op_id map_delete
delete_key obj key tx = do
  let pred = map_pred obj key tx.state
  let (op_id, s) = next_op_id tx.state
  s' ← map_delete obj key s
  some (
      push tx s' (record {
        id = op_id;
        obj = obj;
        key = Prop.key key;
        action = OpType.del;
        value = scalar null;
        pred = pred;
        insert_after = none;
      }))

unfoldable pub insert : ObjId → ℕ → ScalarValue → Transaction → Option Transaction
unfolding insert_after_for next_op_id list_insert
insert obj index val tx = do
  let after = insert_after_for obj index tx.state
  let (op_id, s) = next_op_id tx.state
  s' ← list_insert obj index op_id (scalar val) after s
  some (
      push tx s' (record {
        id = op_id;
        obj = obj;
        key = Prop.index index;
        action = OpType.insert;
        value = scalar val;
        pred = [];
        insert_after = after;
      }))

unfoldable pub insert_object : ObjId → ℕ → ObjType → Transaction → Option (ObjId × Transaction)
unfolding insert_after_for next_op_id create_object list_insert
insert_object obj index type tx = do
  let after = insert_after_for obj index tx.state
  let (op_id, s) = next_op_id tx.state
  s' ← list_insert obj index op_id (object type) after (create_object op_id type s)
  some (
    op op_id,
    push tx s' (record {
      id = op_id;
      obj = obj;
      key = Prop.index index;
      action = OpType.insert;
      value = object type;
      pred = [];
      insert_after = after;
    }),
  )

unfoldable pub set : ObjId → ℕ → ScalarValue → Transaction → Option Transaction
unfolding list_pred next_op_id list_set
set obj index val tx = do
  let pred = list_pred obj index tx.state
  let (op_id, s) = next_op_id tx.state
  s' ← list_set obj index op_id (scalar val) s
  some (
      push tx s' (record {
        id = op_id;
        obj = obj;
        key = Prop.index index;
        action = OpType.put;
        value = scalar val;
        pred = pred;
        insert_after = none;
      }))

unfoldable pub delete_index : ObjId → ℕ → Transaction → Option Transaction
unfolding list_pred next_op_id list_delete
delete_index obj index tx = do
  let pred = list_pred obj index tx.state
  let (op_id, s) = next_op_id tx.state
  s' ← list_delete obj index s
  some (
      push tx s' (record {
        id = op_id;
        obj = obj;
        key = Prop.index index;
        action = OpType.del;
        value = scalar null;
        pred = pred;
        insert_after = none;
      }))

-- The first loop of `splice_text`: `del` deletions at the same place.
unfoldable pub splice_delete : ℕ → ObjId → ℕ → Transaction → Option Transaction
unfolding delete_index
splice_delete zero obj pos tx = some tx
splice_delete (suc del) obj pos tx = do tx' ← delete_index obj pos tx; splice_delete del obj pos tx'

-- One character of the second loop, inserted at `index` behind the element `after`.
unfoldable pub splice_char : ObjId → ℕ → Option OpId → ℕ → Transaction → Option (OpId × Transaction)
unfolding next_op_id list_insert
splice_char obj index after char tx = do
  let (op_id, s) = next_op_id tx.state
  let val = scalar (string (char ∷ []))
  s' ← list_insert obj index op_id val after s
  some (
    op_id,
    push tx s' (record {
      id = op_id;
      obj = obj;
      key = Prop.index index;
      action = OpType.splice_text;
      value = val;
      pred = [];
      insert_after = after;
    }),
  )

-- The characters after the first one, each behind the one before it.
unfoldable pub splice_rest : ObjId → ℕ → OpId → Str → Transaction → Option Transaction
unfolding splice_char
splice_rest obj index prev [] tx = some tx
splice_rest obj index prev (char ∷ text) tx = do
  (op_id, tx') ← splice_char obj index (some prev) char tx
  splice_rest obj (index + 1) op_id text tx'

unfoldable pub splice_insert : ObjId → ℕ → Str → Transaction → Option Transaction
unfolding insert_after_for splice_char splice_rest
splice_insert obj pos [] tx = some tx
splice_insert obj pos (char ∷ text) tx = do
  (op_id, tx') ← splice_char obj pos (insert_after_for obj pos tx.state) char tx
  splice_rest obj (pos + 1) op_id text tx'

unfoldable pub splice_text : ObjId → ℕ → ℕ → Str → Transaction → Option Transaction
unfolding splice_delete splice_insert
splice_text obj pos del text tx = do
  tx' ← splice_delete del obj pos tx
  splice_insert obj pos text tx'

unfoldable pub increment : ObjId → Str → ℕ → Transaction → Option Transaction
unfolding map_pred next_op_id counter_increment
increment obj key delta tx = do
  let pred = map_pred obj key tx.state
  let (op_id, s) = next_op_id tx.state
  s' ← counter_increment obj key delta s
  some (
      push tx s' (record {
        id = op_id;
        obj = obj;
        key = Prop.key key;
        action = OpType.increment;
        value = scalar (counter delta);
        pred = pred;
        insert_after = none;
      }))

unfoldable pub mark : ObjId → ℕ → ℕ → Str → ScalarValue → Transaction → Option Transaction
unfolding list_element_id_at next_op_id mark_range
mark obj start end name value tx = do
  start_elem ← list_element_id_at obj start tx.state
  end_elem ← list_element_id_at obj (if ltb 0 end then end - 1 else 0) tx.state
  let (op_id, s) = next_op_id tx.state
  s' ←
      mark_range obj
        (record {
          mark_id = op_id;
          start_elem = start_elem;
          end_elem = end_elem;
          name = name;
          value = value;
        })
        s
  some (
      push tx s' (record {
        id = op_id;
        obj = obj;
        key = Prop.key name;
        action = OpType.mark;
        value = scalar value;
        pred = start_elem ∷ end_elem ∷ [];
        insert_after = none;
      }))
