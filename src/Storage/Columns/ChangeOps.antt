-- ===== src/Storage/Columns/ChangeOps.antt =====
-- `encode_change_ops` of src/storage/columns/change_op_columns.hpp: the operations of a change, each
-- field in the encoder of a column.
use automerge_cpp.Prelude.{ℕ, if◌then◌else◌, length}
use automerge_cpp.Prelude.{Bool, true, false, Option, none, some, List, [], ◌∷◌, ◌++◌}
use automerge_cpp.Types.{
  ActorId, OpId, ObjId, root, op, Prop, ObjType, Value, object, scalar, OpType, Op, Str,
}
use automerge_cpp.Encoding.Boolean.{BooleanEncoder}
use automerge_cpp.Encoding.Boolean as Boolean
use automerge_cpp.Encoding.Rle.{RleEncoder, uint64, strings}
use automerge_cpp.Encoding.Rle as Rle
use automerge_cpp.Encoding.Delta.{DeltaEncoder}
use automerge_cpp.Encoding.Delta as Delta
use automerge_cpp.Storage.Serializer.{actor_index}
use automerge_cpp.Storage.Columns.Spec.{ColumnSpec}
use automerge_cpp.Storage.Columns.Standard as Standard
use automerge_cpp.Storage.Columns.Raw.{RawColumn}
use automerge_cpp.Storage.Columns.Values.{ValueColumns, encode_value}

-- The code of a list or a text that is made, and of other objects.
abbrev object_code : ObjType → ℕ
object_code ObjType.map = 0
object_code ObjType.list = 2
object_code ObjType.text = 2
object_code ObjType.table = 0

abbrev make_code : Value → ℕ
make_code (object t) = object_code t
make_code (scalar sv) = 0

abbrev insert_code : Value → ℕ
insert_code (object t) = object_code t
insert_code (scalar sv) = 1

abbrev pub action_code : OpType → Value → ℕ
action_code OpType.make_object v = make_code v
action_code OpType.put v = 1
action_code OpType.del v = 3
action_code OpType.increment v = 4
action_code OpType.mark v = 5
action_code OpType.insert v = insert_code v
action_code OpType.splice_text v = 1

unfoldable pub op_to_action_code : Op → ℕ
op_to_action_code o = action_code o.action o.value

abbrev pub is_insert : OpType → Bool
is_insert OpType.insert = true
is_insert OpType.splice_text = true
is_insert _ = false

abbrev pub is_mark : OpType → Bool
is_mark OpType.mark = true
is_mark _ = false

-- The encoders of the columns, and whether there was a mark, and one of a map.
pub record OpEncoders : Type 0 where
  pub obj_actor : RleEncoder ℕ
  pub obj_counter : DeltaEncoder
  pub key_actor : RleEncoder ℕ
  pub key_counter : DeltaEncoder
  pub key_string : RleEncoder Str
  pub insert : BooleanEncoder
  pub action : RleEncoder ℕ
  pub values : ValueColumns
  pub pred_group : RleEncoder ℕ
  pub pred_actor : RleEncoder ℕ
  pub pred_counter : DeltaEncoder
  pub expand : BooleanEncoder
  pub mark_name : RleEncoder Str
  pub has_expand : Bool
  pub has_mark_name : Bool

abbrev pub new_encoders : OpEncoders
new_encoders = record {
  obj_actor = Rle.new_encoder;
  obj_counter = Delta.new_encoder;
  key_actor = Rle.new_encoder;
  key_counter = Delta.new_encoder;
  key_string = Rle.new_encoder;
  insert = Boolean.new_encoder;
  action = Rle.new_encoder;
  values = record { meta_out = []; raw_out = [] };
  pred_group = Rle.new_encoder;
  pred_actor = Rle.new_encoder;
  pred_counter = Delta.new_encoder;
  expand = Boolean.new_encoder;
  mark_name = Rle.new_encoder;
  has_expand = false;
  has_mark_name = false;
}

-- `find_actor_idx` is 0 for an actor that is not in the table, where the assertion of it is off.
module _ (actor_table : List ActorId) where
  abbrev pub find_actor_idx : ActorId → ℕ
  find_actor_idx actor = actor_index actor actor_table 0

  unfoldable pub encode_obj : ObjId → OpEncoders → OpEncoders
  encode_obj root e = record e {
    obj_actor = Rle.append_null uint64 e.obj_actor;
    obj_counter = Delta.append 0 e.obj_counter;
  }
  encode_obj (op id) e = record e {
    obj_actor = Rle.append uint64 (find_actor_idx id.actor) e.obj_actor;
    obj_counter = Delta.append id.counter e.obj_counter;
  }

  abbrev element_key : OpId → OpEncoders → OpEncoders
  element_key id e = record e {
    key_actor = Rle.append uint64 (find_actor_idx id.actor) e.key_actor;
    key_counter = Delta.append id.counter e.key_counter;
  }

  abbrev head_key : OpEncoders → OpEncoders
  head_key e = record e {
    key_actor = Rle.append_null uint64 e.key_actor;
    key_counter = Delta.append 0 e.key_counter;
  }

  -- The element of a `put` or `del` by index is its first predecessor.
  abbrev pred_key : List OpId → OpEncoders → OpEncoders
  pred_key [] e = head_key e
  pred_key (p ∷ pred) e = element_key p e

  abbrev list_key : OpType → List OpId → Option OpId → OpEncoders → OpEncoders
  list_key action pred (some after) e = element_key after e
  list_key action pred none e = if is_insert action then head_key e else pred_key pred e

  unfoldable pub encode_key : Prop → OpType → List OpId → Option OpId → OpEncoders → OpEncoders
  encode_key (Prop.key s) action pred insert_after e = record e {
    key_actor = Rle.append_null uint64 e.key_actor;
    key_counter = Delta.append_null e.key_counter;
    key_string = Rle.append strings s e.key_string;
  }
  encode_key (Prop.index i) action pred insert_after e =
      let e' = list_key action pred insert_after e in
      record e' { key_string = Rle.append_null strings e'.key_string }

  unfoldable pub encode_preds : List OpId → OpEncoders → OpEncoders
  encode_preds [] e = e
  encode_preds (p ∷ pred) e = encode_preds pred (record e {
    pred_actor = Rle.append uint64 (find_actor_idx p.actor) e.pred_actor;
    pred_counter = Delta.append p.counter e.pred_counter;
  })

  abbrev encode_mark_name : Prop → OpEncoders → OpEncoders
  encode_mark_name (Prop.key s) e = record e {
    mark_name = Rle.append strings s e.mark_name;
    has_mark_name = true;
  }
  encode_mark_name (Prop.index i) e = record e { mark_name = Rle.append_null strings e.mark_name }

  unfoldable pub encode_mark : OpType → Prop → OpEncoders → OpEncoders
  encode_mark action at e =
      if is_mark action
      then encode_mark_name at
          (record e { expand = Boolean.append true e.expand; has_expand = true })
      else (record e {
        expand = Boolean.append false e.expand;
        mark_name = Rle.append_null strings e.mark_name;
      })

  -- The flag, the code, the value and the number of the predecessors.
  unfoldable pub encode_action : Op → OpEncoders → OpEncoders
  encode_action o e = record e {
    insert = Boolean.append (is_insert o.action) e.insert;
    action = Rle.append uint64 (op_to_action_code o) e.action;
    values = encode_value o.value e.values;
    pred_group = Rle.append uint64 (length o.pred) e.pred_group;
  }

  -- The body of the loop.
  unfoldable pub encode_op : Op → OpEncoders → OpEncoders
  encode_op o e = encode_mark o.action o.key (
      encode_preds o.pred
        (encode_action o (encode_key o.key o.action o.pred o.insert_after (encode_obj o.obj e))))

  unfoldable pub encode_ops : List Op → OpEncoders → OpEncoders
  encode_ops [] e = e
  encode_ops (o ∷ os) e = encode_ops os (encode_op o e)

-- `add_col`: a column without bytes is left out.
abbrev pub add_col : ColumnSpec → List ℕ → List RawColumn → List RawColumn
add_col spec [] columns = columns
add_col spec (b ∷ bytes) columns = columns ++ (record { spec = spec; bytes = b ∷ bytes } ∷ [])

abbrev pub add_col_if : Bool → ColumnSpec → List ℕ → List RawColumn → List RawColumn
add_col_if true spec bytes columns = add_col spec bytes columns
add_col_if false spec bytes columns = columns

-- The bytes of an encoder that is finished.
abbrev pub numbers : RleEncoder ℕ → List ℕ
numbers e = (Rle.finish uint64 e).output

abbrev pub names : RleEncoder Str → List ℕ
names e = (Rle.finish strings e).output

abbrev pub counters : DeltaEncoder → List ℕ
counters e = (Delta.finish e).rle.output

abbrev pub flags : BooleanEncoder → List ℕ
flags e = (Boolean.finish e).output

unfoldable pub columns_of : OpEncoders → List RawColumn
columns_of e =
    let c = add_col Standard.obj_actor (numbers e.obj_actor) [] in
    let c = add_col Standard.obj_counter (counters e.obj_counter) c in
    let c = add_col Standard.key_actor (numbers e.key_actor) c in
    let c = add_col Standard.key_counter (counters e.key_counter) c in
    let c = add_col Standard.key_string (names e.key_string) c in
    let c = add_col Standard.insert (flags e.insert) c in
    let c = add_col Standard.action (numbers e.action) c in
    let c = add_col Standard.value_meta e.values.meta_out c in
    let c = add_col Standard.value_raw e.values.raw_out c in
    let c = add_col Standard.pred_group (numbers e.pred_group) c in
    let c = add_col Standard.pred_actor (numbers e.pred_actor) c in
    let c = add_col Standard.pred_counter (counters e.pred_counter) c in
    let c = add_col_if e.has_expand Standard.expand (flags e.expand) c in
    add_col_if e.has_mark_name Standard.mark_name (names e.mark_name) c

unfoldable pub encode_change_ops : List Op → List ActorId → List RawColumn
encode_change_ops ops actor_table = columns_of (encode_ops actor_table ops new_encoders)
