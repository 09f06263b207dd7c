-- ===== src/Storage/Deserializer.antt =====
-- src/storage/deserializer.hpp. A reader returns what it has read and the deserializer behind it, and
-- `none` where the code returns `nullopt`; what a failed read has skipped is not used again.
use automerge_cpp.Prelude.{
  ℕ, ◌+◌, ◌*◌, ◌%◌, ◌^◌, if◌then◌else◌, ltb, ◌==◌, length, drop, take, get_elem?, get_or,
}
use automerge_cpp.Prelude.{not, Option, none, some, List}
use automerge_cpp.Types.{
  ActorId, ChangeHash, OpId, ObjId, root, op, Prop, ObjType, ScalarValue, Value, object, scalar,
  Str,
}
use automerge_cpp.Encoding.Leb128.{DecodeResult, decode_uleb128, decode_sleb128}

pub record Deserializer : Type 0 where
  pub input : List ℕ
  pub pos : ℕ

abbrev pub Reader : Type 0 → Type 0
Reader A = Deserializer → Option (A × Deserializer)

-- What follows a read that fails is not run.
infixl 5 ◌>>=◌
abbrev pub ◌>>=◌ : {A B : Type 0} → Reader A → (A → Reader B) → Reader B
◌>>=◌ r f d = elim (r d) [ none ↦ none | some (a, d') ↦ f a d' ]

abbrev pub pure : {A : Type 0} → A → Reader A
pure a d = some (a, d)

abbrev pub fail : {A : Type 0} → Reader A
fail d = none

abbrev pub mapped : {A B : Type 0} → (A → B) → Reader A → Reader B
mapped f r = r >>= (λ a. pure (f a))

abbrev pub skip : ℕ → Deserializer → Deserializer
skip n d = record d { pos = d.pos + n }

-- `read_byte` and `read_u8`
unfoldable pub read_u8 : Reader ℕ
read_u8 d = elim (get_elem? d.input d.pos) [ none ↦ none | some b ↦ some (b, skip 1 d) ]

-- `read_bytes` and `read_raw_bytes`. The sum in the test is one of `std::size_t`, and wraps; where it
-- does, the code reads past the end of the data, and the model what is left of them.
unfoldable pub read_bytes : ℕ → Reader (List ℕ)
read_bytes n d =
    let behind = (d.pos + n) % 2 ^ 64 in
    if ltb (length d.input) behind
    then none
    else some (take n (drop d.pos d.input), record d { pos = behind })

abbrev take_result : Option DecodeResult → Reader ℕ
take_result none d = none
take_result (some r) d = some (r.value, skip r.bytes_read d)

unfoldable pub read_uleb128 : Reader ℕ
unfolding decode_uleb128
read_uleb128 d = take_result (decode_uleb128 (drop d.pos d.input)) d

unfoldable pub read_sleb128 : Reader ℕ
unfolding decode_sleb128
read_sleb128 d = take_result (decode_sleb128 (drop d.pos d.input)) d

unfoldable pub read_string : Reader Str
unfolding read_uleb128 read_bytes
read_string = do len ← read_uleb128; read_bytes len

unfoldable pub read_actor_id : Reader ActorId
unfolding read_bytes
read_actor_id = do bytes ← read_bytes 16; pure (record { bytes = bytes })

unfoldable pub read_change_hash : Reader ChangeHash
unfolding read_bytes
read_change_hash = do bytes ← read_bytes 32; pure (record { bytes = bytes })

abbrev pub pure_option : {A : Type 0} → Option A → Reader A
pure_option none d = none
pure_option (some a) d = some (a, d)

unfoldable pub read_op_id : List ActorId → Reader OpId
unfolding read_uleb128
read_op_id actor_table = do
  counter ← read_uleb128
  actor_idx ← read_uleb128
  actor ← pure_option (get_elem? actor_table actor_idx)
  pure (record { counter = counter; actor = actor })

unfoldable pub read_obj_id : List ActorId → Reader ObjId
unfolding read_u8 read_op_id
read_obj_id actor_table = do
  tag ← read_u8
  if tag == 0 then pure root else mapped op (read_op_id actor_table)

unfoldable pub read_prop : Reader Prop
unfolding read_u8 read_string read_uleb128
read_prop = do
  tag ← read_u8
  if tag == 0 then mapped Prop.key read_string else mapped Prop.index read_uleb128

-- A `double` of 8 bytes, the lowest first.
unfoldable pub from_le64 : List ℕ → ℕ
from_le64 b =
    get_or b 0 0
    + get_or b 1 0 * 2 ^ 8
    + get_or b 2 0 * 2 ^ 16
    + get_or b 3 0 * 2 ^ 24
    + get_or b 4 0 * 2 ^ 32
    + get_or b 5 0 * 2 ^ 40
    + get_or b 6 0 * 2 ^ 48
    + get_or b 7 0 * 2 ^ 56

-- `read_scalar_value(tag)`
unfoldable pub read_scalar_value : ℕ → Reader ScalarValue
unfolding read_u8 read_uleb128 read_sleb128 read_bytes read_string from_le64
read_scalar_value tag =
    if tag == 1
    then pure ScalarValue.null
    else if tag == 2
    then mapped (λ b. ScalarValue.bool (not (b == 0))) read_u8
    else if tag == 3
    then mapped ScalarValue.int read_sleb128
    else if tag == 4
    then mapped ScalarValue.uint read_uleb128
    else if tag == 5
    then mapped (λ b. ScalarValue.double (from_le64 b)) (read_bytes 8)
    else if tag == 6
    then mapped ScalarValue.counter read_sleb128
    else if tag == 7
    then mapped ScalarValue.timestamp read_sleb128
    else if tag == 8
    then mapped ScalarValue.string read_string
    else if tag == 9
    then mapped ScalarValue.bytes (read_uleb128 >>= read_bytes)
    else fail

-- A value, or an `ObjType` that has no name: the code makes it of any byte.
pub data ReadValue : Type 0 where
  value : Value → ReadValue
  unnamed : ℕ → ReadValue

abbrev pub type_of_byte : ℕ → ReadValue
type_of_byte n =
    if n == 0
    then value (object ObjType.map)
    else if n == 1
    then value (object ObjType.list)
    else if n == 2
    then value (object ObjType.text)
    else if n == 3
    then value (object ObjType.table)
    else unnamed n

unfoldable pub read_value : Reader ReadValue
unfolding read_u8 read_scalar_value
read_value = do
  tag ← read_u8
  if tag == 0
      then mapped type_of_byte read_u8
      else mapped (λ sv. value (scalar sv)) (read_scalar_value tag)
