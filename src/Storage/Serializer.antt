-- ===== src/Storage/Serializer.antt =====
-- src/storage/serializer.hpp. A `Serializer` is the bytes that it has written; `std::byte` and
-- `std::uint8_t` are numbers below 256. A `double` is written as the 8 bytes of its pattern, the lowest
-- first, as on the usual machines.
use automerge_cpp.Prelude.{ℕ, ◌+◌, if◌then◌else◌, length, Bool, true, false, List, [], ◌∷◌, ◌++◌}
use automerge_cpp.Prelude.Order.{eqb}
use automerge_cpp.Types.{
  ActorId, ChangeHash, OpId, ObjId, root, op, Prop, ObjType, ScalarValue, Value, object, scalar,
  Str, actor_ord,
}
use automerge_cpp.DocState.Hash.{le64}
use automerge_cpp.Encoding.Leb128.{encode_uleb128, encode_sleb128}

-- `write_byte` and `write_u8`
unfoldable pub write_u8 : ℕ → List ℕ → List ℕ
write_u8 v out = out ++ (v ∷ [])

-- `write_bytes` and `write_raw_bytes`
unfoldable pub write_bytes : List ℕ → List ℕ → List ℕ
write_bytes bytes out = out ++ bytes

unfoldable pub write_string : Str → List ℕ → List ℕ
unfolding encode_uleb128
write_string s out = encode_uleb128 (length s) out ++ s

unfoldable pub write_actor_id : ActorId → List ℕ → List ℕ
unfolding write_bytes
write_actor_id id out = write_bytes id.bytes out

unfoldable pub write_change_hash : ChangeHash → List ℕ → List ℕ
unfolding write_bytes
write_change_hash h out = write_bytes h.bytes out

-- The index of the first entry for an actor, counted from `i` on, and 0 without one.
unfoldable pub actor_index : ActorId → List ActorId → ℕ → ℕ
actor_index actor [] i = 0
actor_index actor (a ∷ table) i =
    let rest = actor_index actor table (i + 1) in if eqb a actor then i else rest

unfoldable pub write_op_id : OpId → List ActorId → List ℕ → List ℕ
unfolding encode_uleb128 actor_index
write_op_id id actor_table out =
    encode_uleb128 (actor_index id.actor actor_table 0) (encode_uleb128 id.counter out)

unfoldable pub write_obj_id : ObjId → List ActorId → List ℕ → List ℕ
unfolding write_u8 write_op_id
write_obj_id root actor_table out = write_u8 0 out
write_obj_id (op id) actor_table out = write_op_id id actor_table (write_u8 1 out)

unfoldable pub write_prop : Prop → List ℕ → List ℕ
unfolding write_u8 write_string encode_uleb128
write_prop (Prop.key s) out = write_string s (write_u8 0 out)
write_prop (Prop.index i) out = encode_uleb128 i (write_u8 1 out)

abbrev pub bool_byte : Bool → ℕ
bool_byte true = 1
bool_byte false = 0

unfoldable pub write_scalar_value : ScalarValue → List ℕ → List ℕ
unfolding write_u8 write_bytes write_string encode_uleb128 encode_sleb128 le64
write_scalar_value ScalarValue.null out = write_u8 1 out
write_scalar_value (ScalarValue.bool b) out = write_u8 (bool_byte b) (write_u8 2 out)
write_scalar_value (ScalarValue.int v) out = encode_sleb128 v (write_u8 3 out)
write_scalar_value (ScalarValue.uint v) out = encode_uleb128 v (write_u8 4 out)
write_scalar_value (ScalarValue.double v) out = write_bytes (le64 v) (write_u8 5 out)
write_scalar_value (ScalarValue.counter v) out = encode_sleb128 v (write_u8 6 out)
write_scalar_value (ScalarValue.timestamp v) out = encode_sleb128 v (write_u8 7 out)
write_scalar_value (ScalarValue.string s) out = write_string s (write_u8 8 out)
write_scalar_value (ScalarValue.bytes b) out =
    write_bytes b (encode_uleb128 (length b) (write_u8 9 out))

-- The value of an enumerator of `ObjType`.
abbrev pub type_byte : ObjType → ℕ
type_byte ObjType.map = 0
type_byte ObjType.list = 1
type_byte ObjType.text = 2
type_byte ObjType.table = 3

unfoldable pub write_value : Value → List ℕ → List ℕ
unfolding write_u8 write_scalar_value
write_value (object t) out = write_u8 (type_byte t) (write_u8 0 out)
write_value (scalar sv) out = write_scalar_value sv out
