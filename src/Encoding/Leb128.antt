-- ===== src/Encoding/Leb128.antt =====
-- src/encoding/leb128.hpp. An `int64_t` is its 64-bit pattern. The encoders' loops run on fuel: 10
-- rounds, of seven bits each, are enough for 64 bits (the round trips below show it).
pub mod Unsigned
pub mod Signed
use Prim.Native.Nat.{bit_and, bit_or}
use automerge_cpp.Prelude.{
  ℕ, zero, suc, ◌+◌, ◌-◌, ◌*◌, ◌/◌, ◌%◌, ◌^◌, if◌then◌else◌, leb, ltb, ◌==◌,
}
use automerge_cpp.Prelude.{
  Bool, true, false, not, ◌&&◌, ◌||◌, Option, none, some, List, [], ◌∷◌, ◌++◌,
}

-- `do { … } while (value != 0)`
unfoldable pub uleb_loop : ℕ → ℕ → List ℕ → List ℕ
uleb_loop zero value output = output
uleb_loop (suc fuel) value output =
    let byte = bit_and value 0x7f in
    let rest = uleb_loop fuel (value / 128) (output ++ (bit_or byte 0x80 ∷ [])) in
    if value / 128 == 0 then output ++ (byte ∷ []) else rest

-- `encode_uleb128(value, output)`
unfoldable pub encode_uleb128 : ℕ → List ℕ → List ℕ
unfolding uleb_loop
encode_uleb128 value output = uleb_loop 10 value output

-- `DecodeResult` and `SignedDecodeResult`
pub record DecodeResult : Type 0 where
  pub value : ℕ
  pub bytes_read : ℕ

-- The loop of `decode_uleb128`, on the bytes from index `i` on.
unfoldable pub decode_uleb_loop : List ℕ → ℕ → ℕ → ℕ → Option DecodeResult
decode_uleb_loop [] value shift i = none
decode_uleb_loop (byte ∷ input) value shift i =
    let value' = bit_or value (bit_and byte 0x7f * 2 ^ shift % 2 ^ 64) in
    let rest = decode_uleb_loop input value' (shift + 7) (i + 1) in
    if leb 64 shift
    then none
    else if bit_and byte 0x80 == 0
    then some (record { value = value'; bytes_read = i + 1 })
    else rest

unfoldable pub decode_uleb128 : List ℕ → Option DecodeResult
unfolding decode_uleb_loop
decode_uleb128 input = decode_uleb_loop input 0 0 0

-- `value >> 7` on an `int64_t`, an arithmetic shift.
unfoldable pub shift_right_7 : ℕ → ℕ
shift_right_7 value = value / 128 + (if ltb value (2 ^ 63) then 0 else 2 ^ 64 - 2 ^ 57)

-- `while (more)`: the last byte is the one whose bit 6 agrees with what is left.
unfoldable pub sleb_loop : ℕ → ℕ → List ℕ → List ℕ
unfolding shift_right_7
sleb_loop zero value output = output
sleb_loop (suc fuel) value output =
    let byte = bit_and value 0x7f in
    let value' = shift_right_7 value in
    let sign_bit = not (bit_and byte 0x40 == 0) in
    let rest = sleb_loop fuel value' (output ++ (bit_or byte 0x80 ∷ [])) in
    if (value' == 0 && not sign_bit) || (value' == 2 ^ 64 - 1 && sign_bit)
    then output ++ (byte ∷ [])
    else rest

-- `encode_sleb128(value, output)`
unfoldable pub encode_sleb128 : ℕ → List ℕ → List ℕ
unfolding sleb_loop
encode_sleb128 value output = sleb_loop 10 value output

-- `value |= -(1 << shift)`, if the number is negative and bits are left above `shift`.
unfoldable pub sign_extend : ℕ → ℕ → ℕ → ℕ
sign_extend byte value shift =
    if ltb shift 64 && not (bit_and byte 0x40 == 0)
    then bit_or value (2 ^ 64 - 2 ^ shift)
    else value

-- The loop of `decode_sleb128`.
unfoldable pub decode_sleb_loop : List ℕ → ℕ → ℕ → ℕ → Option DecodeResult
unfolding sign_extend
decode_sleb_loop [] value shift i = none
decode_sleb_loop (byte ∷ input) value shift i =
    let value' = bit_or value (bit_and byte 0x7f * 2 ^ shift % 2 ^ 64) in
    let rest = decode_sleb_loop input value' (shift + 7) (i + 1) in
    if leb 64 shift
    then none
    else if bit_and byte 0x80 == 0
    then some (record { value = sign_extend byte value' (shift + 7); bytes_read = i + 1 })
    else rest

unfoldable pub decode_sleb128 : List ℕ → Option DecodeResult
unfolding decode_sleb_loop
decode_sleb128 input = decode_sleb_loop input 0 0 0
