-- ===== src/Transaction/Replay.antt =====
-- What it means that a mutation of a transaction and the operation that it records agree, and what
-- `apply_op` does with such an operation.
pub mod Maps
pub mod Insert
pub mod Elements
use automerge_cpp.Prelude.{
  ℕ, ◌+◌, ◌%◌, ◌^◌, ◌<◌, ◌≡◌, refl, sym, ap, ◌∙◌, arith, if◌then◌else◌, filter, map, All,
  Option-cases, Bool-cases, inl, inr, subst, ◌>>=◌, >>=-eq-some, max,
}
use automerge_cpp.Prelude.{Bool, true, false, Option, none, some, List, [], ◌∷◌, ◌++◌}
use automerge_cpp.Prelude.Order.{eqb, bytes_ord, eqb_refl, eqb-eq}
use automerge_cpp.Types.{
  obj_id_ord, OpId, ObjId, ObjType, ScalarValue, Value, Str, Op, OpType, Prop, scalar, object, null,
  op_id_ord, op, compare_op_id_refl,
}
use automerge_cpp.OrdMap.{OrdMap, find, erase, assign}
use automerge_cpp.DocState.{
  MapEntry, ObjectState, DocState, contains, get_object, set_object, modify_object, suc_u64,
  next_op_id, create_object,
}
use automerge_cpp.DocState.MapOps.{
  expect_object, is_map_type, update_object, map_pred, map_put, map_delete, or_empty, put_entry,
  delete_entry,
}
use automerge_cpp.DocState.Apply.{
  without_pred, apply_op, apply_action, ensure_nested, advance_counter, apply_map_put,
  apply_map_delete, store_entries,
}
use automerge_cpp.Transaction.{push, Transaction, put, put_object, delete_key}

-- The mutation recorded one operation, which takes the old state to the new one.
pub record Replays (before after : Transaction) : Type 0 where
  pub operation : Op
  pub recorded : after.pending_ops ≡ before.pending_ops ++ (operation ∷ [])
  pub replayed : apply_op operation before.state ≡ after.state

modify-present :
    (obj : ObjId) (f : ObjectState → ObjectState) (s : DocState) {st : ObjectState}
    → get_object obj s ≡ some st
    → modify_object obj f s ≡ set_object obj (f st) s
unfolding modify_object
modify-present obj f s h = rw (h, modify_object) refl

-- An operation on an object that is there, `u` being the state once the objects are created.
pub apply_op-present :
    (o : Op) (s u : DocState) {st st' : ObjectState}
    → ensure_nested o.id o.value (advance_counter o.id s) ≡ u
    → get_object o.obj u ≡ some st
    → apply_action o.action o.key o st ≡ st'
    → apply_op o s ≡ set_object o.obj st' u
unfolding apply_op
apply_op-present o s u {st} hu h a =
    ap (modify_object o.obj (apply_action o.action o.key o)) hu
    ∙ modify-present o.obj (apply_action o.action o.key o) u h
    ∙ ap (λ (x : ObjectState). set_object o.obj x u) a

pub advance-next :
    (s : DocState)
    → s.next_counter + 1 < 2 ^ 64
    → advance_counter (next_op_id s).0 s ≡ (next_op_id s).1
unfolding advance_counter next_op_id
advance-next s h =
    ap (λ (n : ℕ). record s { next_counter = n })
      (let e : max s.next_counter ((s.next_counter + 1) % 2 ^ 64) ≡ (s.next_counter + 1) % 2 ^ 64 =
          omega arith in
        e)

-- An operation with a scalar value and the next id of the state creates nothing.
pub ensure-scalar :
    (v : ScalarValue) (s : DocState)
    → s.next_counter + 1 < 2 ^ 64
    → ensure_nested (next_op_id s).0 (scalar v) (advance_counter (next_op_id s).0 s)
      ≡ (next_op_id s).1
unfolding ensure_nested
ensure-scalar v s h = advance-next s h

pub Replays-push :
    (tx : Transaction) (o : Op) (s' : DocState)
    → apply_op o tx.state ≡ s'
    → Replays tx (push tx s' o)
Replays-push tx o s' h = record { operation = o; recorded = refl; replayed = h }
