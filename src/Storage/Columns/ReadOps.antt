-- ===== src/Storage/Columns/ReadOps.antt =====
-- `decode_change_ops` of src/storage/columns/change_op_columns.hpp: the operations, field by field from
-- the decoders of the columns. A step returns `none` where the code returns `nullopt`.
use automerge_cpp.Prelude.{ℕ, zero, suc, ◌+◌, ◌%◌, ◌^◌, if◌then◌else◌, ◌==◌, get_elem?}
use automerge_cpp.Prelude.{Bool, true, false, ◌&&◌, Option, none, some, List, [], ◌∷◌}
use automerge_cpp.Types.{
  ActorId, OpId, ObjId, root, op, Prop, ObjType, ScalarValue, Value, object, scalar, OpType, Op,
  Str,
}
use automerge_cpp.Encoding.Boolean.{BooleanDecoder}
use automerge_cpp.Encoding.Boolean as Boolean
use automerge_cpp.Encoding.Rle.{RleDecoder, uint64, strings}
use automerge_cpp.Encoding.Rle as Rle
use automerge_cpp.Encoding.Delta.{DeltaDecoder}
use automerge_cpp.Encoding.Delta as Delta
use automerge_cpp.Storage.Columns.Spec.{ColumnSpec, type_code}
use automerge_cpp.Storage.Columns.Standard as Standard
use automerge_cpp.Storage.Columns.Raw.{RawColumn}
use automerge_cpp.Storage.Columns.Values.{ValueReader, decode_value_from_columns}

-- `find_col`
abbrev pub find_col : ColumnSpec → List RawColumn → List ℕ
find_col spec [] = []
find_col spec (c ∷ columns) =
    let rest = find_col spec columns in
    if (c.spec).column_id == spec.column_id && type_code (c.spec).type == type_code spec.type
    then c.bytes
    else rest

pub record OpDecoders : Type 0 where
  pub obj_actor : RleDecoder ℕ
  pub obj_counter : DeltaDecoder
  pub key_actor : RleDecoder ℕ
  pub key_counter : DeltaDecoder
  pub key_string : RleDecoder Str
  pub insert : BooleanDecoder
  pub action : RleDecoder ℕ
  pub values : ValueReader
  pub pred_group : RleDecoder ℕ
  pub pred_actor : RleDecoder ℕ
  pub pred_counter : DeltaDecoder

unfoldable pub new_decoders : List RawColumn → OpDecoders
new_decoders columns = record {
  obj_actor = Rle.new_decoder (find_col Standard.obj_actor columns);
  obj_counter = Delta.new_decoder (find_col Standard.obj_counter columns);
  key_actor = Rle.new_decoder (find_col Standard.key_actor columns);
  key_counter = Delta.new_decoder (find_col Standard.key_counter columns);
  key_string = Rle.new_decoder (find_col Standard.key_string columns);
  insert = Boolean.new_decoder (find_col Standard.insert columns);
  action = Rle.new_decoder (find_col Standard.action columns);
  values = record {
    meta = record { input = find_col Standard.value_meta columns; pos = 0 };
    raw = record { input = find_col Standard.value_raw columns; pos = 0 };
  };
  pred_group = Rle.new_decoder (find_col Standard.pred_group columns);
  pred_actor = Rle.new_decoder (find_col Standard.pred_actor columns);
  pred_counter = Delta.new_decoder (find_col Standard.pred_counter columns);
}

abbrev pub Step : Type 0 → Type 0
Step A = OpDecoders → Option (A × OpDecoders)

infixl 5 ◌>>=◌
abbrev pub ◌>>=◌ : {A B : Type 0} → Step A → (A → Step B) → Step B
◌>>=◌ s f d = elim (s d) [ none ↦ none | some (a, d') ↦ f a d' ]

abbrev pub pure : {A : Type 0} → A → Step A
pure a d = some (a, d)

abbrev pub pure_option : {A : Type 0} → Option A → Step A
pure_option none d = none
pure_option (some a) d = some (a, d)

-- The answer of a decoder, and where it is kept; the end of a column has none.
abbrev pub answer : {A D : Type 0} → Option A × D → (D → OpDecoders) → Option (A × OpDecoders)
answer (none, column) kept = none
answer (some a, column) kept = some (a, kept column)

abbrev pub next_obj_actor : Step (Option ℕ)
next_obj_actor d = answer (Rle.next uint64 d.obj_actor) (λ column. record d { obj_actor = column })

abbrev pub next_obj_counter : Step (Option ℕ)
next_obj_counter d = answer (Delta.next d.obj_counter) (λ column. record d { obj_counter = column })

abbrev pub next_key_actor : Step (Option ℕ)
next_key_actor d = answer (Rle.next uint64 d.key_actor) (λ column. record d { key_actor = column })

abbrev pub next_key_counter : Step (Option ℕ)
next_key_counter d = answer (Delta.next d.key_counter) (λ column. record d { key_counter = column })

abbrev pub next_key_string : Step (Option Str)
next_key_string d =
    answer (Rle.next strings d.key_string) (λ column. record d { key_string = column })

abbrev pub next_insert : Step Bool
next_insert d = answer (Boolean.next d.insert) (λ column. record d { insert = column })

abbrev pub next_action : Step (Option ℕ)
next_action d = answer (Rle.next uint64 d.action) (λ column. record d { action = column })

abbrev pub next_value : Step Value
next_value d = answer (decode_value_from_columns d.values) (λ r. record d { values = r })

abbrev pub next_pred_group : Step (Option ℕ)
next_pred_group d =
    answer (Rle.next uint64 d.pred_group) (λ column. record d { pred_group = column })

abbrev pub next_pred_actor : Step (Option ℕ)
next_pred_actor d =
    answer (Rle.next uint64 d.pred_actor) (λ column. record d { pred_actor = column })

abbrev pub next_pred_counter : Step (Option ℕ)
next_pred_counter d =
    answer (Delta.next d.pred_counter) (λ column. record d { pred_counter = column })

module _ (actor_table : List ActorId) where
  -- An operation id of an index of the table, or none.
  abbrev pub op_id_of : ℕ → ℕ → Option OpId
  op_id_of actor_idx counter = elim (get_elem? actor_table actor_idx) [
    | none ↦ none
    | some actor ↦ some (record { counter = counter; actor = actor })
  ]

  abbrev pub object_of : Option OpId → Option ObjId
  object_of none = none
  object_of (some id) = some (op id)

  abbrev pub obj_of : Option ℕ → Option ℕ → Option ObjId
  obj_of none counter = some root
  obj_of (some actor_idx) none = some root
  obj_of (some actor_idx) (some counter) = object_of (op_id_of actor_idx counter)

  unfoldable pub decode_obj : Step ObjId
  decode_obj = do
    obj_actor ← next_obj_actor
    obj_counter ← next_obj_counter
    pure_option (obj_of obj_actor obj_counter)

  -- The key of an element of a list is read as the index 0.
  abbrev pub key_of : Option Str → Prop
  key_of none = Prop.index 0
  key_of (some s) = Prop.key s

  abbrev pub insert_after_of : Bool → Option ℕ → Option ℕ → Option OpId
  insert_after_of true (some actor_idx) (some counter) = op_id_of actor_idx counter
  insert_after_of _ _ _ = none

  -- The key, whether it is an insertion, and what it is inserted after.
  unfoldable pub decode_key : Step (Prop × Bool × Option OpId)
  decode_key = do
    key_actor ← next_key_actor
    key_counter ← next_key_counter
    key_string ← next_key_string
    inserts ← next_insert
    pure (key_of key_string, inserts, insert_after_of inserts key_actor key_counter)

  -- The predecessors, as many as are counted.
  unfoldable pub decode_preds : ℕ → Step (List OpId)
  decode_preds zero = pure []
  decode_preds (suc n) = do
    actor ← next_pred_actor
    actor_idx ← pure_option actor
    counter ← next_pred_counter
    absolute ← pure_option counter
    p ← pure_option (op_id_of actor_idx absolute)
    pred ← decode_preds n
    pure (p ∷ pred)

-- An `ObjType` is made of any number, of which it keeps 8 bits; `unnamed` is the one that has no name.
module _ (unnamed : ℕ → ObjType) where
  abbrev pub obj_type : ℕ → ObjType
  obj_type n =
      let byte = n % 2 ^ 8 in
      if byte == 0
      then ObjType.map
      else if byte == 1
      then ObjType.list
      else if byte == 2
      then ObjType.text
      else if byte == 3
      then ObjType.table
      else unnamed byte

  -- The type of a number without a sign, or the given one.
  abbrev pub typed : ObjType → Value → Value
  typed default (scalar (ScalarValue.uint v)) = object (obj_type v)
  typed default v = object default

  abbrev pub inserted : Value → OpType
  inserted (scalar (ScalarValue.string s)) = OpType.splice_text
  inserted v = OpType.insert

  abbrev insert_of : ℕ → Value → OpType × Value
  insert_of code v =
      if code == 0
      then (OpType.insert, typed ObjType.map v)
      else if code == 2
      then (OpType.insert, typed ObjType.list v)
      else (inserted v, v)

  abbrev other_of : ℕ → Value → Option (OpType × Value)
  other_of code v =
      if code == 0
      then some (OpType.make_object, typed ObjType.map v)
      else if code == 1
      then some (OpType.put, v)
      else if code == 2
      then some (OpType.make_object, typed ObjType.list v)
      else if code == 3
      then some (OpType.del, v)
      else if code == 4
      then some (OpType.increment, v)
      else if code == 5
      then some (OpType.mark, v)
      else none

  -- The action code and the insertion flag make the action and its value.
  unfoldable pub action_of : Bool → ℕ → Value → Option (OpType × Value)
  action_of true code v = some (insert_of code v)
  action_of false code v = other_of code v

  unfoldable pub decode_action : Bool → Step (OpType × Value)
  decode_action inserts = do
    action ← next_action
    code ← pure_option action
    v ← next_value
    pure_option (action_of inserts code v)

  module _ (actor_table : List ActorId) (change_actor : ActorId) where
    -- The body of the loop.
    unfoldable pub decode_op : ℕ → Step Op
    decode_op counter = do
      obj ← decode_obj actor_table
      (at, inserts, insert_after) ← decode_key actor_table
      (action, v) ← decode_action inserts
      group ← next_pred_group
      pred_count ← pure_option group
      pred ← decode_preds actor_table pred_count
      pure (record {
        id = record { counter = counter; actor = change_actor };
        obj = obj;
        key = at;
        action = action;
        value = v;
        pred = pred;
        insert_after = insert_after;
      })

    -- `num_ops` operations from the counter on.
    unfoldable pub decode_ops : ℕ → ℕ → Step (List Op)
    decode_ops zero counter = pure []
    decode_ops (suc n) counter = do
      o ← decode_op (counter % 2 ^ 64)
      os ← decode_ops n (counter + 1)
      pure (o ∷ os)

    abbrev pub without_decoders : Option (List Op × OpDecoders) → Option (List Op)
    without_decoders none = none
    without_decoders (some (ops, d)) = some ops

    unfoldable pub decode_change_ops : List RawColumn → ℕ → ℕ → Option (List Op)
    decode_change_ops columns start_op num_ops =
        without_decoders (decode_ops num_ops start_op (new_decoders columns))
