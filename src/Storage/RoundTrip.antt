-- ===== src/Storage/RoundTrip.antt =====
-- What the serializer writes, the deserializer reads back.
use automerge_cpp.Prelude.{ℕ, ◌^◌, ◌<◌, ◌≡◌, refl, sym, ap, ◌∙◌, arith, length, if◌then◌else◌, ◌==◌}
use automerge_cpp.Prelude.{Bool, true, false, not, some, List, [], ◌∷◌, ◌++◌, append_assoc}
use automerge_cpp.Types.{ObjType, ScalarValue, Value, object, scalar, Str}
use automerge_cpp.DocState.Hash.{le64}
use automerge_cpp.Encoding.Leb128.{encode_uleb128, encode_sleb128}
use automerge_cpp.Encoding.Leb128.Unsigned.{encode_uleb128-behind}
use automerge_cpp.Encoding.Leb128.Signed.{encode_sleb128-behind}
use automerge_cpp.Storage.Serializer.{
  write_u8, write_bytes, write_string, write_scalar_value, write_value, type_byte, bool_byte,
}
use automerge_cpp.Storage.Deserializer.{
  Deserializer, Reader, ◌>>=◌, mapped, skip, read_u8, read_bytes, read_uleb128, read_sleb128,
  read_string, read_scalar_value, read_value, ReadValue, value, type_of_byte, from_le64,
}
use automerge_cpp.Storage.Reads.{
  IsAt, Reads, Reads-then, Reads-mapped, Reads-u8, Reads-uleb128, Reads-sleb128, Reads-bytes,
}

-- What a string and a value with a length in front of it are written as.
abbrev sized : List ℕ → List ℕ
sized s = encode_uleb128 (length s) [] ++ s

Reads-sized : (s : List ℕ) → length s < 2 ^ 64 → Reads (read_uleb128 >>= read_bytes) (sized s) s
Reads-sized s bound =
    Reads-then read_uleb128 read_bytes (encode_uleb128 (length s) []) s
      (Reads-uleb128 (length s) bound) (Reads-bytes s)

pub Reads-string : (s : Str) → length s < 2 ^ 64 → Reads read_string (write_string s []) s
unfolding read_string write_string
Reads-string s bound = Reads-sized s bound

pub from_le64-le64 : (v : ℕ) → v < 2 ^ 64 → from_le64 (le64 v) ≡ v
unfolding from_le64 le64
from_le64-le64 v h = omega arith

-- The numbers of a value are of 64 bits, and the lengths of a `std::size_t`.
abbrev pub Fits : ScalarValue → Type 0
Fits ScalarValue.null = Unit
Fits (ScalarValue.bool b) = Unit
Fits (ScalarValue.int v) = v < 2 ^ 64
Fits (ScalarValue.uint v) = v < 2 ^ 64
Fits (ScalarValue.double v) = v < 2 ^ 64
Fits (ScalarValue.counter v) = v < 2 ^ 64
Fits (ScalarValue.timestamp v) = v < 2 ^ 64
Fits (ScalarValue.string s) = length s < 2 ^ 64
Fits (ScalarValue.bytes b) = length b < 2 ^ 64

abbrev pub FitsValue : Value → Type 0
FitsValue (object t) = Unit
FitsValue (scalar sv) = Fits sv

abbrev tag_of : ScalarValue → ℕ
tag_of ScalarValue.null = 1
tag_of (ScalarValue.bool b) = 2
tag_of (ScalarValue.int v) = 3
tag_of (ScalarValue.uint v) = 4
tag_of (ScalarValue.double v) = 5
tag_of (ScalarValue.counter v) = 6
tag_of (ScalarValue.timestamp v) = 7
tag_of (ScalarValue.string s) = 8
tag_of (ScalarValue.bytes b) = 9

abbrev payload : ScalarValue → List ℕ
payload ScalarValue.null = []
payload (ScalarValue.bool b) = bool_byte b ∷ []
payload (ScalarValue.int v) = encode_sleb128 v []
payload (ScalarValue.uint v) = encode_uleb128 v []
payload (ScalarValue.double v) = le64 v
payload (ScalarValue.counter v) = encode_sleb128 v []
payload (ScalarValue.timestamp v) = encode_sleb128 v []
payload (ScalarValue.string s) = sized s
payload (ScalarValue.bytes b) = sized b

sized-behind : (s out : List ℕ) → encode_uleb128 (length s) out ++ s ≡ out ++ sized s
sized-behind s out =
    ap (λ (t : List ℕ). t ++ s) (encode_uleb128-behind (length s) out)
    ∙ append_assoc out (encode_uleb128 (length s) []) s

pub write_string-behind : (s : Str) (out : List ℕ) → write_string s out ≡ out ++ write_string s []
unfolding write_string
write_string-behind s out = sized-behind s out

write-payload : (sv : ScalarValue) → write_scalar_value sv [] ≡ tag_of sv ∷ payload sv
unfolding write_scalar_value write_u8 write_bytes write_string
write-payload ScalarValue.null = refl
write-payload (ScalarValue.bool b) = refl
write-payload (ScalarValue.int v) = encode_sleb128-behind v (3 ∷ [])
write-payload (ScalarValue.uint v) = encode_uleb128-behind v (4 ∷ [])
write-payload (ScalarValue.double v) = refl
write-payload (ScalarValue.counter v) = encode_sleb128-behind v (6 ∷ [])
write-payload (ScalarValue.timestamp v) = encode_sleb128-behind v (7 ∷ [])
write-payload (ScalarValue.string s) = sized-behind s (8 ∷ [])
write-payload (ScalarValue.bytes b) = sized-behind b (9 ∷ [])

Reads-null : Reads (read_scalar_value 1) [] ScalarValue.null
unfolding read_scalar_value
Reads-null d rest at = ap (λ (n : ℕ). some (ScalarValue.null, record d { pos = n })) (omega arith)

Reads-bool : (b : Bool) → Reads (read_scalar_value 2) (bool_byte b ∷ []) (ScalarValue.bool b)
unfolding read_scalar_value
Reads-bool true = Reads-mapped (λ b. ScalarValue.bool (not (b == 0))) read_u8 (1 ∷ []) (Reads-u8 1)
Reads-bool false = Reads-mapped (λ b. ScalarValue.bool (not (b == 0))) read_u8 (0 ∷ []) (Reads-u8 0)

Reads-double : (v : ℕ) → v < 2 ^ 64 → Reads (read_scalar_value 5) (le64 v) (ScalarValue.double v)
unfolding read_scalar_value le64
Reads-double v bound d rest at =
    Reads-mapped (λ b. ScalarValue.double (from_le64 b)) (read_bytes 8) (le64 v)
      (Reads-bytes (le64 v)) d rest at
    ∙ ap (λ (n : ℕ). some (ScalarValue.double n, skip 8 d)) (from_le64-le64 v bound)

Reads-payload : (sv : ScalarValue) → Fits sv → Reads (read_scalar_value (tag_of sv)) (payload sv) sv
unfolding read_scalar_value
Reads-payload ScalarValue.null fits = Reads-null
Reads-payload (ScalarValue.bool b) fits = Reads-bool b
Reads-payload (ScalarValue.int v) fits =
    Reads-mapped ScalarValue.int read_sleb128 (encode_sleb128 v []) (Reads-sleb128 v fits)
Reads-payload (ScalarValue.uint v) fits =
    Reads-mapped ScalarValue.uint read_uleb128 (encode_uleb128 v []) (Reads-uleb128 v fits)
Reads-payload (ScalarValue.double v) fits = Reads-double v fits
Reads-payload (ScalarValue.counter v) fits =
    Reads-mapped ScalarValue.counter read_sleb128 (encode_sleb128 v []) (Reads-sleb128 v fits)
Reads-payload (ScalarValue.timestamp v) fits =
    Reads-mapped ScalarValue.timestamp read_sleb128 (encode_sleb128 v []) (Reads-sleb128 v fits)
Reads-payload (ScalarValue.string s) fits =
    unfold read_string in
    Reads-mapped ScalarValue.string (read_uleb128 >>= read_bytes) (sized s) (Reads-sized s fits)
Reads-payload (ScalarValue.bytes b) fits =
    Reads-mapped ScalarValue.bytes (read_uleb128 >>= read_bytes) (sized b) (Reads-sized b fits)

write_scalar_value-tag : (sv : ScalarValue) → (tag_of sv == 0) ≡ false
write_scalar_value-tag ScalarValue.null = refl
write_scalar_value-tag (ScalarValue.bool b) = refl
write_scalar_value-tag (ScalarValue.int v) = refl
write_scalar_value-tag (ScalarValue.uint v) = refl
write_scalar_value-tag (ScalarValue.double v) = refl
write_scalar_value-tag (ScalarValue.counter v) = refl
write_scalar_value-tag (ScalarValue.timestamp v) = refl
write_scalar_value-tag (ScalarValue.string s) = refl
write_scalar_value-tag (ScalarValue.bytes b) = refl

type_of_byte-type_byte : (t : ObjType) → type_of_byte (type_byte t) ≡ value (object t)
type_of_byte-type_byte ObjType.map = refl
type_of_byte-type_byte ObjType.list = refl
type_of_byte-type_byte ObjType.text = refl
type_of_byte-type_byte ObjType.table = refl

abbrev second : ℕ → Reader ReadValue
second tag =
    if tag == 0
    then mapped type_of_byte read_u8
    else mapped (λ sv. value (scalar sv)) (read_scalar_value tag)

Reads-second :
    (sv : ScalarValue) → Fits sv → Reads (second (tag_of sv)) (payload sv) (value (scalar sv))
Reads-second sv fits = rw (write_scalar_value-tag sv) (
    Reads-mapped (λ sv. value (scalar sv)) (read_scalar_value (tag_of sv)) (payload sv)
      (Reads-payload sv fits))

Reads-object : (t : ObjType) → Reads (second 0) (type_byte t ∷ []) (value (object t))
Reads-object t =
    rw (sym (type_of_byte-type_byte t))
      (Reads-mapped type_of_byte read_u8 (type_byte t ∷ []) (Reads-u8 (type_byte t)))

pub Reads-value : (v : Value) → FitsValue v → Reads read_value (write_value v []) (value v)
unfolding read_value write_value write_u8
Reads-value (object t) fits =
    Reads-then read_u8 second (0 ∷ []) (type_byte t ∷ []) (Reads-u8 0) (Reads-object t)
Reads-value (scalar sv) fits = rw (write-payload sv) (
    Reads-then read_u8 second (tag_of sv ∷ []) (payload sv) (Reads-u8 (tag_of sv))
      (Reads-second sv fits))

-- A value that the serializer wrote, with numbers and lengths of 64 bits, is read back at its place
-- in the data, whatever follows it, and the reader goes on behind it.
pub read_value-write_value :
    (v : Value) (d : Deserializer) (rest : List ℕ)
    → FitsValue v
    → IsAt d (write_value v [] ++ rest)
    → read_value d ≡ some (value v, skip (length (write_value v [])) d)
read_value-write_value v d rest fits at = Reads-value v fits d rest at
