-- ===== src/Storage/Columns/Values.antt =====
-- src/storage/columns/value_encoding.hpp: a value as a number in one column, its tag and the length of
-- its bytes, and its bytes in another one.
use Prim.Native.Nat.{bit_and, bit_or}
use automerge_cpp.Prelude.{
  ℕ, ◌+◌, ◌-◌, ◌*◌, ◌/◌, ◌%◌, ◌^◌, if◌then◌else◌, ltb, ◌==◌, length, drop, take,
}
use automerge_cpp.Prelude.{true, false, Option, none, some, List, ◌++◌}
use automerge_cpp.Types.{ScalarValue, Value, object, scalar}
use automerge_cpp.DocState.Hash.{le64}
use automerge_cpp.Encoding.Leb128.{
  DecodeResult, encode_uleb128, encode_sleb128, decode_uleb128, decode_sleb128,
}
use automerge_cpp.Storage.Serializer.{type_byte}
use automerge_cpp.Storage.Deserializer.{Deserializer, read_uleb128, from_le64}

-- `ValueTag`
abbrev pub value_tag : ScalarValue → ℕ
value_tag ScalarValue.null = 0
value_tag (ScalarValue.bool false) = 1
value_tag (ScalarValue.bool true) = 2
value_tag (ScalarValue.uint v) = 3
value_tag (ScalarValue.int v) = 4
value_tag (ScalarValue.double v) = 5
value_tag (ScalarValue.string s) = 6
value_tag (ScalarValue.bytes b) = 7
value_tag (ScalarValue.counter v) = 8
value_tag (ScalarValue.timestamp v) = 9

-- The bytes of a value, behind what is there.
unfoldable pub write_raw : ScalarValue → List ℕ → List ℕ
write_raw ScalarValue.null raw_out = raw_out
write_raw (ScalarValue.bool b) raw_out = raw_out
write_raw (ScalarValue.uint v) raw_out = encode_uleb128 v raw_out
write_raw (ScalarValue.int v) raw_out = encode_sleb128 v raw_out
write_raw (ScalarValue.double v) raw_out = raw_out ++ le64 v
write_raw (ScalarValue.counter v) raw_out = encode_sleb128 v raw_out
write_raw (ScalarValue.timestamp v) raw_out = encode_sleb128 v raw_out
write_raw (ScalarValue.string s) raw_out = raw_out ++ s
write_raw (ScalarValue.bytes b) raw_out = raw_out ++ b

-- The two columns.
pub record ValueColumns : Type 0 where
  pub meta_out : List ℕ
  pub raw_out : List ℕ

-- `(raw_len << 4) | tag`
abbrev pub meta_of : ℕ → ℕ → ℕ
meta_of tag raw_len = bit_or tag (raw_len * 2 ^ 4 % 2 ^ 64)

-- The columns with the bytes of a value, and then its tag and the length of these.
abbrev pub with_meta : ℕ → List ℕ → ValueColumns → ValueColumns
with_meta tag raw_out out = record {
  meta_out = encode_uleb128 (meta_of tag (length raw_out - length out.raw_out)) out.meta_out;
  raw_out = raw_out;
}

unfoldable pub encode_scalar_value : ScalarValue → ValueColumns → ValueColumns
encode_scalar_value sv out = with_meta (value_tag sv) (write_raw sv out.raw_out) out

-- An `ObjType` is written like a number without a sign.
unfoldable pub encode_value : Value → ValueColumns → ValueColumns
encode_value (scalar sv) out = encode_scalar_value sv out
encode_value (object t) out = with_meta 3 (encode_uleb128 (type_byte t) out.raw_out) out

abbrev pub number : (ℕ → ScalarValue) → Option DecodeResult → Option ScalarValue
number f none = none
number f (some r) = some (f r.value)

-- The value that a tag, a length and bytes stand for.
unfoldable pub tagged_value : ℕ → ℕ → List ℕ → Option ScalarValue
tagged_value tag raw_len raw_span =
    if tag == 0
    then some ScalarValue.null
    else if tag == 1
    then some (ScalarValue.bool false)
    else if tag == 2
    then some (ScalarValue.bool true)
    else if tag == 3
    then number ScalarValue.uint (decode_uleb128 raw_span)
    else if tag == 4
    then number ScalarValue.int (decode_sleb128 raw_span)
    else if tag == 5
    then (if raw_len == 8 then some (ScalarValue.double (from_le64 raw_span)) else none)
    else if tag == 6
    then some (ScalarValue.string raw_span)
    else if tag == 7
    then some (ScalarValue.bytes raw_span)
    else if tag == 8
    then number ScalarValue.counter (decode_sleb128 raw_span)
    else if tag == 9
    then number ScalarValue.timestamp (decode_sleb128 raw_span)
    else none

-- The places in the two columns that are read next.
pub record ValueReader : Type 0 where
  pub meta : Deserializer
  pub raw : Deserializer

abbrev pub and_skip : ValueReader → ℕ → Option ScalarValue → Option Value × ValueReader
and_skip r raw_len none = (none, r)
and_skip r raw_len (some sv) =
    (some (scalar sv), record r { raw = record r.raw { pos = (r.raw.pos + raw_len) % 2 ^ 64 } })

-- The sum of the test wraps, as in `read_bytes`.
unfoldable pub decode_raw : ℕ → ValueReader → Option Value × ValueReader
decode_raw meta_val r =
    let raw_len = meta_val / 2 ^ 4 in
    let raw_span = take raw_len (drop r.raw.pos r.raw.input) in
    if ltb (length r.raw.input) ((r.raw.pos + raw_len) % 2 ^ 64)
    then (none, r)
    else and_skip r raw_len (tagged_value (bit_and meta_val 0x0f) raw_len raw_span)

unfoldable pub decode_value_from_columns : ValueReader → Option Value × ValueReader
decode_value_from_columns r = elim (read_uleb128 r.meta) [
  | none ↦ (none, r)
  | some (meta_val, meta) ↦ decode_raw meta_val (record r { meta = meta })
]
