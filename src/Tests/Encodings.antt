-- ===== src/Tests/Encodings.antt =====
-- LEB128 and columns of booleans at concrete values.
use automerge_cpp.Prelude.{
  ◌^◌, ◌-◌, ◌+◌, Bool, true, false, List, ◌≡◌, refl, arith, some, [], ◌∷◌, ◌++◌, length,
}
use automerge_cpp.Encoding.Leb128.{encode_uleb128, decode_uleb128, encode_sleb128, decode_sleb128}
use automerge_cpp.Encoding.Leb128.Unsigned.{decode-encode_uleb128}
use automerge_cpp.Encoding.Leb128.Signed.{decode-encode_sleb128}
use automerge_cpp.Encoding.Boolean.{finish, new_decoder, find_run}
use automerge_cpp.Encoding.Boolean.Writer.{append_all, encode}
use automerge_cpp.Encoding.Boolean.Reader.{read, find_run_enough}
use automerge_cpp.Encoding.Boolean.RoundTrip.{read-encode}

encode_300 : encode_uleb128 300 [] ≡ 0xac ∷ 0x02 ∷ []
unfolding encode_uleb128
encode_300 = refl

encode_minus_123456 : encode_sleb128 (2 ^ 64 - 123456) [] ≡ 0xc0 ∷ 0xbb ∷ 0x78 ∷ []
unfolding encode_sleb128
encode_minus_123456 = refl

-- A tenth byte with more than one bit is accepted, and what does not fit is dropped.
decode_wide :
    decode_uleb128 (0x80 ∷ 0x80 ∷ 0x80 ∷ 0x80 ∷ 0x80 ∷ 0x80 ∷ 0x80 ∷ 0x80 ∷ 0x80 ∷ 2 ∷ [])
    ≡ some (record { value = 0; bytes_read = 10 })
unfolding decode_uleb128
decode_wide = refl

decode-encode_uleb128_example :
    decode_uleb128 (encode_uleb128 300 [] ++ (7 ∷ []))
    ≡ some (record { value = 300; bytes_read = length (encode_uleb128 300 []) })
decode-encode_uleb128_example = decode-encode_uleb128 300 (7 ∷ []) (omega arith)

decode-encode_sleb128_example :
    decode_sleb128 (encode_sleb128 (2 ^ 64 - 5) [] ++ (7 ∷ []))
    ≡ some (record { value = 2 ^ 64 - 5; bytes_read = length (encode_sleb128 (2 ^ 64 - 5) []) })
decode-encode_sleb128_example = decode-encode_sleb128 (2 ^ 64 - 5) (7 ∷ []) (omega arith)

-- A column that starts with true has no false values first.
encode_booleans : encode (true ∷ true ∷ false ∷ []) ≡ 0 ∷ 2 ∷ 1 ∷ []
unfolding encode finish append_all encode_uleb128
encode_booleans = refl

read_booleans : read 9 (new_decoder (0 ∷ 2 ∷ 1 ∷ [])) ≡ true ∷ true ∷ false ∷ []
unfolding read decode_uleb128
read_booleans = refl

abbrev flags : List Bool
flags = true ∷ true ∷ false ∷ true ∷ []

read-encode_example : read (length flags + 2) (new_decoder (encode flags)) ≡ flags
read-encode_example = read-encode flags 2 (omega arith)

-- Four bytes, of which the first two are counts of 0.
find_run_enough_example :
    find_run 5 (new_decoder (0 ∷ 0 ∷ 2 ∷ 1 ∷ [])) ≡ find_run 9 (new_decoder (0 ∷ 0 ∷ 2 ∷ 1 ∷ []))
find_run_enough_example =
    find_run_enough 5 9 (new_decoder (0 ∷ 0 ∷ 2 ∷ 1 ∷ [])) (omega arith) (omega arith)
