-- ===== src/Tests/Changes.antt =====
-- Changes in the binary format at concrete values.
use automerge_cpp.Prelude.{All}
use automerge_cpp.Prelude.{none, some, List, [], ◌∷◌}
use automerge_cpp.Types.{ActorId, root, op, Prop, ObjType, ScalarValue, object, scalar, OpType, Op}
use automerge_cpp.DocState.ActorTable.{ensure_actor_table, no_table}
use automerge_cpp.DocState.ActorTable.Complete.{
  Knows, KnowsChange, Extends, ensure_actor_table-Knows,
}
use automerge_cpp.Prelude.{length, refl, arith, ◌^◌, ◌<◌, ◌≡◌, map, some}
use automerge_cpp.Prelude.Order.{compare_bytes}
use automerge_cpp.Encoding.Leb128.{encode_uleb128, encode_sleb128}
use automerge_cpp.DocState.ActorTable.Complete.{KnowsOp}
use automerge_cpp.Storage.Columns.ChangeOps.{
  encode_change_ops, columns_of, encode_ops, encode_op, encode_obj, encode_key, encode_preds,
  encode_mark, encode_action, op_to_action_code,
}
use automerge_cpp.Storage.Serializer.{actor_index, write_string}
use automerge_cpp.Encoding.Rle as Rle
use automerge_cpp.Encoding.Delta as Delta
use automerge_cpp.Encoding.Boolean as Boolean
use automerge_cpp.Storage.Columns.ReadOps.{decode_change_ops}
use automerge_cpp.Storage.Columns.Raw.{RawColumn}
use automerge_cpp.Storage.Columns.Values.{write_raw, encode_value, encode_scalar_value}
use automerge_cpp.Storage.Columns.Stored.{stored}
use automerge_cpp.Storage.Columns.Fits.{OpFits}
use automerge_cpp.Storage.Columns.ChangeOpsRoundTrip.{IsWritable, decode-encode_change_ops}
use automerge_cpp.Tests.Histories.{alice, bob, bobs}

abbrev table : List ActorId
table = bob ∷ alice ∷ []

abbrev item : Op
item = record {
  id = record { counter = 2; actor = bob };
  obj = op (record { counter = 1; actor = bob });
  key = Prop.index 5;
  action = OpType.insert;
  value = scalar (ScalarValue.int 7);
  pred = [];
  insert_after = some (record { counter = 9; actor = alice });
}

abbrev made : Op
made = record {
  id = record { counter = 1; actor = bob };
  obj = root;
  key = Prop.key (b'l' ∷ []);
  action = OpType.make_object;
  value = object ObjType.list;
  pred = record { counter = 4; actor = alice } ∷ record { counter = 3; actor = bob } ∷ [];
  insert_after = none;
}

-- A table is made of the history of Bob's document: Bob is its actor and its author.
ensure_actor_table-Knows_example :
    Knows (ensure_actor_table bobs no_table).table bobs.actor
    × (All (KnowsChange (ensure_actor_table bobs no_table).table) bobs.change_history
        × Extends no_table.table (ensure_actor_table bobs no_table).table)
ensure_actor_table-Knows_example = ensure_actor_table-Knows bobs no_table tt (λ h. cc)

abbrev two_ops : List Op
two_ops = made ∷ item ∷ []

two_ops-fit : All OpFits two_ops
unfolding write_raw encode_sleb128 encode_uleb128
two_ops-fit = (
  record {
    obj = tt;
    name = omega arith;
    after = tt;
    preds = (omega arith, (omega arith, tt));
    count = omega arith;
    payload = (tt, omega arith);
  },
  (
    record {
      obj = omega arith;
      name = tt;
      after = omega arith;
      preds = tt;
      count = omega arith;
      payload = (omega arith, omega arith);
    },
    tt,
  ),
)

two_ops-known : All (KnowsOp table) two_ops
unfolding compare_bytes
two_ops-known = ((refl, (tt, (tt, (refl, (refl, tt))))), ((refl, (refl, (refl, tt))), tt))

abbrev Small : RawColumn → Type 0
Small c = length c.bytes < 2 ^ 64

two_ops-Small : All Small (encode_change_ops two_ops table)
unfolding encode_change_ops columns_of encode_ops encode_op encode_obj encode_key encode_preds
    encode_mark encode_action op_to_action_code actor_index compare_bytes encode_value
    encode_scalar_value write_raw Rle.append Rle.append_null Rle.finish Delta.append
    Delta.append_null Delta.finish Boolean.append Boolean.finish write_string encode_uleb128
    encode_sleb128
two_ops-Small = (
  omega arith,
  (
    omega arith,
    (
      omega arith,
      (
        omega arith,
        (
          omega arith,
          (
            omega arith,
            (
              omega arith,
              (omega arith, (omega arith, (omega arith, (omega arith, (omega arith, tt))))),
            ),
          ),
        ),
      ),
    ),
  ),
)

two_ops-IsWritable : IsWritable table two_ops
two_ops-IsWritable = record {
  large = omega arith;
  few = omega arith;
  few_preds = omega arith;
  fits = two_ops-fit;
  small = two_ops-Small;
  known = two_ops-known;
  storable = ((tt, tt), ((tt, tt), tt));
}

-- The index 5 is read as 0.
decode-encode_change_ops_example :
    decode_change_ops (λ n. ObjType.table) table bob (encode_change_ops two_ops table) 1 2
    ≡ some (map stored two_ops)
decode-encode_change_ops_example =
    decode-encode_change_ops (λ n. ObjType.table) table bob 1 two_ops two_ops-IsWritable
      (refl, (refl, tt))
