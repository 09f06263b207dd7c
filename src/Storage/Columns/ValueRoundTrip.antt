-- ===== src/Storage/Columns/ValueRoundTrip.antt =====
-- The values that are written to the two columns are read back.
use Prim.Native.Nat.{bit_and, bit_or}
use automerge_cpp.Prelude.{
  ℕ, zero, suc, ◌+◌, ◌-◌, ◌*◌, ◌/◌, ◌%◌, ◌^◌, ◌<◌, ◌≡◌, refl, sym, ap, ◌∙◌, arith, length,
  length-append, All, map,
}
use automerge_cpp.Prelude.{
  true, false, Option, none, some, List, [], ◌∷◌, ◌++◌, append_assoc, append-nil,
}
use automerge_cpp.Prelude.Bits.{bit_and_0f, bit_or_shifted}
use automerge_cpp.Types.{ObjType, ScalarValue, Value, object, scalar}
use automerge_cpp.DocState.Hash.{le64}
use automerge_cpp.Encoding.Leb128.{
  DecodeResult, encode_uleb128, encode_sleb128, decode_uleb128, decode_sleb128,
}
use automerge_cpp.Encoding.Leb128.Unsigned.{encode_uleb128-behind, decode-encode_uleb128}
use automerge_cpp.Encoding.Leb128.Signed.{encode_sleb128-behind, decode-encode_sleb128}
use automerge_cpp.Storage.Serializer.{type_byte}
use automerge_cpp.Storage.Deserializer.{skip}
use automerge_cpp.Storage.Reads.{IsAt, Reads-uleb128, bytes-IsAt, skip-IsAt}
use automerge_cpp.Storage.RoundTrip.{Fits, FitsValue, from_le64-le64}
use automerge_cpp.Storage.Columns.Values.{
  ValueColumns, ValueReader, value_tag, write_raw, meta_of, with_meta, encode_scalar_value,
  encode_value, number, tagged_value, decode_raw, decode_value_from_columns,
}

-- The value that is read for a value: the number of an `ObjType` for it.
abbrev pub as_scalar : Value → ScalarValue
as_scalar (scalar sv) = sv
as_scalar (object t) = ScalarValue.uint (type_byte t)

-- The bytes of a value.
abbrev pub raw_bytes : Value → List ℕ
raw_bytes v = write_raw (as_scalar v) []

abbrev pub meta_bytes : Value → List ℕ
meta_bytes v = encode_uleb128 (meta_of (value_tag (as_scalar v)) (length (raw_bytes v))) []

write_raw-behind : (sv : ScalarValue) (out : List ℕ) → write_raw sv out ≡ out ++ write_raw sv []
unfolding write_raw
write_raw-behind ScalarValue.null out = sym (append-nil out)
write_raw-behind (ScalarValue.bool b) out = sym (append-nil out)
write_raw-behind (ScalarValue.uint v) out = encode_uleb128-behind v out
write_raw-behind (ScalarValue.int v) out = encode_sleb128-behind v out
write_raw-behind (ScalarValue.double v) out = refl
write_raw-behind (ScalarValue.counter v) out = encode_sleb128-behind v out
write_raw-behind (ScalarValue.timestamp v) out = encode_sleb128-behind v out
write_raw-behind (ScalarValue.string s) out = refl
write_raw-behind (ScalarValue.bytes b) out = refl

encode_value-as_scalar :
    (v : Value) (out : ValueColumns)
    → encode_value v out
      ≡ with_meta (value_tag (as_scalar v)) (write_raw (as_scalar v) out.raw_out) out
unfolding encode_value encode_scalar_value write_raw
encode_value-as_scalar (scalar sv) out = refl
encode_value-as_scalar (object t) out = refl

-- The two columns get the bytes of the value behind what they have.
pub encode_value-bytes :
    (v : Value) (out : ValueColumns)
    → encode_value v out
      ≡ record { meta_out = out.meta_out ++ meta_bytes v; raw_out = out.raw_out ++ raw_bytes v }
encode_value-bytes v out =
    let written : length (out.raw_out ++ raw_bytes v) - length out.raw_out ≡ length (raw_bytes v) =
      omega (arith, length-append out.raw_out (raw_bytes v)) in
    encode_value-as_scalar v out
    ∙ ap (λ (t : List ℕ). with_meta (value_tag (as_scalar v)) t out)
        (write_raw-behind (as_scalar v) out.raw_out)
    ∙ ap
        (λ (n : ℕ). record {
          meta_out = encode_uleb128 (meta_of (value_tag (as_scalar v)) n) out.meta_out;
          raw_out = out.raw_out ++ raw_bytes v;
        })
        written
    ∙ ap (λ (t : List ℕ). record { meta_out = t; raw_out = out.raw_out ++ raw_bytes v })
        (encode_uleb128-behind (meta_of (value_tag (as_scalar v)) (length (raw_bytes v)))
          out.meta_out)

value_tag_bound : (sv : ScalarValue) → value_tag sv < 16
value_tag_bound ScalarValue.null = omega arith
value_tag_bound (ScalarValue.bool true) = omega arith
value_tag_bound (ScalarValue.bool false) = omega arith
value_tag_bound (ScalarValue.int v) = omega arith
value_tag_bound (ScalarValue.uint v) = omega arith
value_tag_bound (ScalarValue.double v) = omega arith
value_tag_bound (ScalarValue.counter v) = omega arith
value_tag_bound (ScalarValue.timestamp v) = omega arith
value_tag_bound (ScalarValue.string s) = omega arith
value_tag_bound (ScalarValue.bytes b) = omega arith

-- The tag and the length do not overlap.
meta_of-sum : (tag n : ℕ) → tag < 16 → n < 2 ^ 60 → meta_of tag n ≡ tag + n * 16
meta_of-sum tag n small short =
    let whole : n * 2 ^ 4 % 2 ^ 64 ≡ n * 2 ^ 4 = omega arith in
    ap (bit_or tag) whole ∙ bit_or_shifted 4 tag n small

read_number :
    (f : ℕ → ScalarValue) (code : List ℕ) (v : ℕ)
    → (decode : List ℕ → Option DecodeResult)
    → ((rest : List ℕ)
        → decode (code ++ rest) ≡ some (record { value = v; bytes_read = length code }))
    → number f (decode code) ≡ some (f v)
read_number f code v decode back =
    ap (λ (t : List ℕ). number f (decode t)) (sym (append-nil code)) ∙ ap (number f) (back [])

tagged_value-write_raw :
    (sv : ScalarValue)
    → Fits sv
    → tagged_value (value_tag sv) (length (write_raw sv [])) (write_raw sv []) ≡ some sv
unfolding tagged_value write_raw le64
tagged_value-write_raw ScalarValue.null fits = refl
tagged_value-write_raw (ScalarValue.bool true) fits = refl
tagged_value-write_raw (ScalarValue.bool false) fits = refl
tagged_value-write_raw (ScalarValue.uint v) fits =
    read_number ScalarValue.uint (encode_uleb128 v []) v decode_uleb128
      (λ rest. decode-encode_uleb128 v rest fits)
tagged_value-write_raw (ScalarValue.int v) fits =
    read_number ScalarValue.int (encode_sleb128 v []) v decode_sleb128
      (λ rest. decode-encode_sleb128 v rest fits)
tagged_value-write_raw (ScalarValue.double v) fits =
    ap (λ (t : ℕ). some (ScalarValue.double t)) (from_le64-le64 v fits)
tagged_value-write_raw (ScalarValue.counter v) fits =
    read_number ScalarValue.counter (encode_sleb128 v []) v decode_sleb128
      (λ rest. decode-encode_sleb128 v rest fits)
tagged_value-write_raw (ScalarValue.timestamp v) fits =
    read_number ScalarValue.timestamp (encode_sleb128 v []) v decode_sleb128
      (λ rest. decode-encode_sleb128 v rest fits)
tagged_value-write_raw (ScalarValue.string s) fits = refl
tagged_value-write_raw (ScalarValue.bytes b) fits = refl

-- The numbers and lengths of a value fit, and its bytes are fewer than 2 ^ 60.
abbrev pub FitsColumn : Value → Type 0
FitsColumn v = FitsValue v × (length (raw_bytes v) < 2 ^ 60)

as_scalar-Fits : (v : Value) → FitsValue v → Fits (as_scalar v)
as_scalar-Fits (scalar sv) fits = fits
as_scalar-Fits (object ObjType.map) fits = omega arith
as_scalar-Fits (object ObjType.list) fits = omega arith
as_scalar-Fits (object ObjType.text) fits = omega arith
as_scalar-Fits (object ObjType.table) fits = omega arith

decode_raw-raw_bytes :
    (v : Value) (r : ValueReader) (rest : List ℕ)
    → FitsColumn v
    → IsAt r.raw (raw_bytes v ++ rest)
    → decode_raw (meta_of (value_tag (as_scalar v)) (length (raw_bytes v))) r
      ≡ (some (scalar (as_scalar v)), record r { raw = skip (length (raw_bytes v)) r.raw })
unfolding decode_raw
decode_raw-raw_bytes v r rest fits at =
    let sv = as_scalar v in
    let n = length (raw_bytes v) in
    let (ends, room, taken) = bytes-IsAt r.raw (raw_bytes v) rest at in
    let sum = meta_of-sum (value_tag sv) n (value_tag_bound sv) fits.1 in
    let size : (value_tag sv + n * 16) / 2 ^ 4 ≡ n = omega (arith, value_tag_bound sv) in
    let tag : bit_and (value_tag sv + n * 16) 0x0f ≡ value_tag sv =
      bit_and_0f (value_tag sv + n * 16) ∙ omega (arith, value_tag_bound sv) in
    rw (sum, size, tag, ends, room, taken, tagged_value-write_raw sv (as_scalar-Fits v fits.0))
      (ap (λ (t : ℕ). (some (scalar sv), record r { raw = record r.raw { pos = t } })) ends)

-- A value at the places that a reader stands at is read, with the type of an object as a number
-- without a sign, and the reader goes on behind its bytes in both columns.
pub decode_value-bytes :
    (v : Value) (r : ValueReader) (metas raws : List ℕ)
    → FitsColumn v
    → IsAt r.meta (meta_bytes v ++ metas)
    → IsAt r.raw (raw_bytes v ++ raws)
    → decode_value_from_columns r ≡ (
      some (scalar (as_scalar v)),
      record {
        meta = skip (length (meta_bytes v)) r.meta;
        raw = skip (length (raw_bytes v)) r.raw;
      },
    )
unfolding decode_value_from_columns
decode_value-bytes v r metas raws fits at_meta at_raw =
    let tag = value_tag (as_scalar v) in
    let n = length (raw_bytes v) in
    let small : meta_of tag n < 2 ^ 64 =
      rw (meta_of-sum tag n (value_tag_bound (as_scalar v)) fits.1)
        (omega (arith, value_tag_bound (as_scalar v), fits.1)) in
    rw (decode_value_from_columns, Reads-uleb128 (meta_of tag n) small r.meta metas at_meta)
      (decode_raw-raw_bytes v (record r { meta = skip (length (meta_bytes v)) r.meta }) raws fits
        at_raw)

-- The values of a column, written in order.
unfoldable pub write_values : List Value → ValueColumns → ValueColumns
write_values [] out = out
write_values (v ∷ vs) out = write_values vs (encode_value v out)

abbrev continue : (ValueReader → List Value) → Option Value × ValueReader → List Value
continue others (none, r) = []
continue others (some v, r) = v ∷ others r

-- The answers of `n` readings, up to the first that has none.
unfoldable pub decode_values : ℕ → ValueReader → List Value
decode_values zero r = []
decode_values (suc n) r = continue (decode_values n) (decode_value_from_columns r)

abbrev all_bytes : (Value → List ℕ) → List Value → List ℕ
all_bytes f [] = []
all_bytes f (v ∷ vs) = f v ++ all_bytes f vs

write_values-bytes :
    (vs : List Value) (out : ValueColumns)
    → write_values vs out ≡ record {
      meta_out = out.meta_out ++ all_bytes meta_bytes vs;
      raw_out = out.raw_out ++ all_bytes raw_bytes vs;
    }
unfolding write_values
write_values-bytes [] out = rw (append-nil out.meta_out, append-nil out.raw_out) refl
write_values-bytes (v ∷ vs) out =
    ap (write_values vs) (encode_value-bytes v out)
    ∙ write_values-bytes vs _
    ∙ rw
        (
          append_assoc out.meta_out (meta_bytes v) (all_bytes meta_bytes vs),
          append_assoc out.raw_out (raw_bytes v) (all_bytes raw_bytes vs),
        )
        refl

decode_values-bytes :
    (vs : List Value) (r : ValueReader)
    → All FitsColumn vs
    → IsAt r.meta (all_bytes meta_bytes vs)
    → IsAt r.raw (all_bytes raw_bytes vs)
    → decode_values (length vs) r ≡ map (λ v. scalar (as_scalar v)) vs
unfolding decode_values
decode_values-bytes [] r fits at_meta at_raw = refl
decode_values-bytes (v ∷ vs) r fits at_meta at_raw =
    ap (continue (decode_values (length vs))) (
      decode_value-bytes v r (all_bytes meta_bytes vs) (all_bytes raw_bytes vs) fits.0 at_meta
        at_raw)
    ∙ ap (◌∷◌ (scalar (as_scalar v))) (
        decode_values-bytes vs _ fits.1
          (skip-IsAt r.meta (meta_bytes v) (all_bytes meta_bytes vs) at_meta)
          (skip-IsAt r.raw (raw_bytes v) (all_bytes raw_bytes vs) at_raw))

abbrev pub new_columns : ValueColumns
new_columns = record { meta_out = []; raw_out = [] }

abbrev pub reader_of : ValueColumns → ValueReader
reader_of columns = record {
  meta = record { input = columns.meta_out; pos = 0 };
  raw = record { input = columns.raw_out; pos = 0 };
}

-- The values that are written to the two columns, with numbers of 64 bits and fewer than 2 ^ 60 bytes
-- each, to columns of fewer than 2 ^ 64 bytes, are read back in their order, the type of an object as
-- the number of the type without a sign.
pub decode_values-write_values :
    (vs : List Value)
    → All FitsColumn vs
    → length (write_values vs new_columns).meta_out < 2 ^ 64
    → length (write_values vs new_columns).raw_out < 2 ^ 64
    → decode_values (length vs) (reader_of (write_values vs new_columns))
      ≡ map (λ v. scalar (as_scalar v)) vs
decode_values-write_values vs fits metas raws =
    let written = write_values-bytes vs new_columns in
    decode_values-bytes vs (reader_of (write_values vs new_columns)) fits
      (record {
        left = ap (λ (t : ValueColumns). t.meta_out) written;
        inside = omega arith;
        small = metas;
      })
      (record {
        left = ap (λ (t : ValueColumns). t.raw_out) written;
        inside = omega arith;
        small = raws;
      })
