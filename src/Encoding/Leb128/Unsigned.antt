-- ===== src/Encoding/Leb128/Unsigned.antt =====
-- Unsigned LEB128: what `encode_uleb128` writes, and that `decode_uleb128` reads it back.
use Prim.Native.Nat.{bit_and, bit_or}
use native.Mathlib.Nat.{div-add-mod}
use native.Mathlib.Numerals.{towards_suc}
use native.Mathlib.Decide.{dec_lt}
use automerge_cpp.Prelude.{
  ℕ, zero, suc, ◌+◌, ◌*◌, ◌/◌, ◌%◌, ◌^◌, ◌≤◌, ◌<◌, ◌≡◌, ap, sym, ◌∙◌, arith, if◌then◌else◌, ◌==◌,
}
use automerge_cpp.Prelude.{Option, some, List, [], ◌∷◌, ◌++◌, append_assoc, append-nil, length}
use automerge_cpp.Prelude.Bits.{bit_and_7f, bit_and_80, bit_or_shifted}
use automerge_cpp.Encoding.Leb128.{
  uleb_loop, encode_uleb128, DecodeResult, decode_uleb_loop, decode_uleb128,
}

-- The bytes of a number: groups of seven bits, the lowest first, with bit 7 set on all but the last.
pub uleb_bytes : ℕ → ℕ → List ℕ
uleb_bytes zero value = []
uleb_bytes (suc fuel) value =
    let rest = (value % 128 + 128) ∷ uleb_bytes fuel (value / 128) in
    if value / 128 == 0 then value % 128 ∷ [] else rest

pub continued : (a : ℕ) → bit_or (bit_and a 0x7f) 0x80 ≡ a % 128 + 128
continued a = rw bit_and_7f (bit_or_shifted 7 (a % 128) 1 (omega arith))

uleb_loop-bytes :
    (fuel value : ℕ) (output : List ℕ)
    → uleb_loop fuel value output ≡ output ++ uleb_bytes fuel value
unfolding uleb_loop uleb_bytes
uleb_loop-bytes zero value output = sym (append-nil output)
uleb_loop-bytes (suc fuel) value output = ground (
  arith,
  bit_and_7f value,
  continued value,
  uleb_loop-bytes fuel (value / 128) (output ++ (bit_or (bit_and value 0x7f) 0x80 ∷ [])),
  append_assoc output ((value % 128 + 128) ∷ []) (uleb_bytes fuel (value / 128)),
)

-- The encoder appends the bytes of the number to the output.
pub encode_uleb128-append :
    (value : ℕ) (output : List ℕ) → encode_uleb128 value output ≡ output ++ uleb_bytes 10 value
unfolding encode_uleb128
encode_uleb128-append value output = uleb_loop-bytes 10 value output

-- A group of seven bits joined to the bits below it, for any byte with that group.
pub joined :
    (s acc g byte : ℕ)
    → acc < 2 ^ s
    → byte % 128 ≡ g
    → acc + g * 2 ^ s < 2 ^ 64
    → bit_or acc (bit_and byte 0x7f * 2 ^ s % 2 ^ 64) ≡ acc + g * 2 ^ s
joined s acc g byte below group fits = ap (bit_or acc) in_range ∙ bit_or_shifted s acc g below
  where
    in_range : bit_and byte 0x7f * 2 ^ s % 2 ^ 64 ≡ g * 2 ^ s
    in_range = rw (bit_and_7f, group) (omega arith)

-- One round of the decoder on a last group, and on a group with bit 7 set.
module _ (s acc g i : ℕ) (input : List ℕ) (below : acc < 2 ^ s) (small : g < 128)
    (fits : acc + g * 2 ^ s < 2 ^ 64) (early : s ≤ 63) where
  last_group :
      decode_uleb_loop (g ∷ input) acc s i
      ≡ some (record { value = acc + g * 2 ^ s; bytes_read = i + 1 })
  unfolding decode_uleb_loop
  last_group = ground (arith, joined s acc g g below (omega arith) fits, bit_and_80 g)

  inner_group :
      decode_uleb_loop ((g + 128) ∷ input) acc s i
      ≡ decode_uleb_loop input (acc + g * 2 ^ s) (s + 7) (i + 1)
  unfolding decode_uleb_loop
  inner_group =
      ground (arith, joined s acc g (g + 128) below (omega arith) fits, bit_and_80 (g + 128))

pub shift_seven : (s : ℕ) → 2 ^ (s + 7) ≡ 128 * 2 ^ s
shift_seven s = simp towards_suc (omega arith)

abbrev decoded : ℕ → ℕ → Option DecodeResult
decoded value n = some (record { value = value; bytes_read = n })

-- The lowest group of `v` and the rest, both shifted.
pub split_group : (v s : ℕ) → v * 2 ^ s ≡ v % 128 * 2 ^ s + v / 128 * 2 ^ (s + 7)
split_group v s = omega (
  arith,
  ap (λ (t : ℕ). t * 2 ^ s) (div-add-mod v 128),
  ap (λ (t : ℕ). v / 128 * t) (shift_seven s),
)

pub group_bound : (g p : ℕ) → g < 128 → g * p + p ≤ 128 * p
group_bound g p h = grind arith

bytes-last : (f v : ℕ) → v < 128 → uleb_bytes (suc f) v ≡ v ∷ []
unfolding uleb_bytes
bytes-last f v h = ground arith

bytes-more : (f v : ℕ) → 128 ≤ v → uleb_bytes (suc f) v ≡ (v % 128 + 128) ∷ uleb_bytes f (v / 128)
unfolding uleb_bytes
bytes-more f v h = ground arith

-- `f + 1` rounds of the encoder against the decoder at the shift `s`.
decode-bytes :
    (f v s acc i : ℕ) (rest : List ℕ)
    → s + 7 * f ≡ 63
    → v < 128 ^ suc f
    → acc < 2 ^ s
    → acc + v * 2 ^ s < 2 ^ 64
    → decode_uleb_loop (uleb_bytes (suc f) v ++ rest) acc s i
      ≡ decoded (acc + v * 2 ^ s) (i + length (uleb_bytes (suc f) v))
decode-bytes zero v s acc i rest hs hv below fits =
    rw (bytes-last 0 v (omega arith))
      (last_group s acc v i rest below (omega arith) fits (omega arith))
decode-bytes (suc f) v s acc i rest hs hv below fits = elim (dec_lt v 128) [
  | yes h ↦ rw (bytes-last (suc f) v h) (last_group s acc v i rest below h fits (omega arith))
  | no h ↦ rw (bytes-more (suc f) v (omega arith)) (
      inner_group s acc (v % 128) i (uleb_bytes (suc f) (v / 128) ++ rest) below (omega arith)
        (omega (arith, split_group v s)) (omega arith)
      ∙ decode-bytes f (v / 128) (s + 7) (acc + v % 128 * 2 ^ s) (i + 1) rest (omega arith)
          (omega arith) (omega (arith, shift_seven s, group_bound (v % 128) (2 ^ s) (omega arith)))
          (omega (arith, split_group v s))
      ∙ ground (arith, split_group v s))
]

-- The decoder reads back a 64-bit number that the encoder wrote, whatever follows it, and consumes
-- what the encoder wrote.
pub decode-encode_uleb128 :
    (value : ℕ) (rest : List ℕ)
    → value < 2 ^ 64
    → decode_uleb128 (encode_uleb128 value [] ++ rest)
      ≡ some (record { value = value; bytes_read = length (encode_uleb128 value []) })
unfolding decode_uleb128
decode-encode_uleb128 value rest h = rw (encode_uleb128-append value []) (
    decode-bytes 9 value 0 0 0 rest (omega arith) (omega arith) (omega arith) (omega arith)
    ∙ ground arith)

uleb_bytes_nonempty : (f v : ℕ) → 1 ≤ length (uleb_bytes (suc f) v)
unfolding uleb_bytes
uleb_bytes_nonempty f v = ground arith

-- At most one byte for each round.
pub length-uleb_bytes : (f v : ℕ) → length (uleb_bytes f v) ≤ f
unfolding uleb_bytes
length-uleb_bytes zero v = omega arith
length-uleb_bytes (suc f) v = ground (arith, length-uleb_bytes f (v / 128))

-- An encoding has 1 to 10 bytes.
pub length-encode_uleb128 :
    (value : ℕ) → (1 ≤ length (encode_uleb128 value [])) × (length (encode_uleb128 value []) ≤ 10)
length-encode_uleb128 value =
    rw (encode_uleb128-append value []) (uleb_bytes_nonempty 9 value, length-uleb_bytes 10 value)

-- The encoder writes behind what is there.
pub encode_uleb128-behind :
    (value : ℕ) (output : List ℕ) → encode_uleb128 value output ≡ output ++ encode_uleb128 value []
encode_uleb128-behind value output =
    encode_uleb128-append value output ∙ ap (◌++◌ output) (sym (encode_uleb128-append value []))
