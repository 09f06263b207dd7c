-- ===== src/Encoding/Leb128/Signed.antt =====
-- Signed LEB128: what `encode_sleb128` writes, and that `decode_sleb128` reads it back.
use Prim.Native.Nat.{bit_and, bit_or}
use native.Mathlib.Nat.{pow-suc, one-le-pow, pow-le-pow_right}
use native.Mathlib.Decide.{dec_lt}
use automerge_cpp.Prelude.{
  ℕ, zero, suc, ◌+◌, ◌-◌, ◌*◌, ◌/◌, ◌%◌, ◌^◌, ◌≤◌, ◌<◌, ◌≡◌, ap, subst, sym, ◌∙◌, arith,
  if◌then◌else◌, leb, ltb, ◌==◌, ◌&&◌, ◌||◌,
}
use automerge_cpp.Prelude.{
  Bool, Option, some, List, [], ◌∷◌, ◌++◌, append_assoc, append-nil, length,
}
use automerge_cpp.Prelude.Bits.{bit_and_7f, bit_and_80, bit_and_40, bit_or_shifted}
use automerge_cpp.Encoding.Leb128.{
  sleb_loop, shift_right_7, sign_extend, encode_sleb128, DecodeResult, decode_sleb_loop,
  decode_sleb128,
}
use automerge_cpp.Encoding.Leb128.Unsigned.{
  continued, joined, shift_seven, split_group, group_bound,
}

-- The test for the last byte, in arithmetic.
is_last : ℕ → Bool
is_last value =
    (shift_right_7 value == 0 && ltb (value % 128) 64)
    || (shift_right_7 value == 2 ^ 64 - 1 && leb 64 (value % 128))

-- The bytes of a signed number.
pub sleb_bytes : ℕ → ℕ → List ℕ
sleb_bytes zero value = []
sleb_bytes (suc fuel) value =
    let rest = (value % 128 + 128) ∷ sleb_bytes fuel (shift_right_7 value) in
    if is_last value then value % 128 ∷ [] else rest

sleb_loop-bytes :
    (fuel value : ℕ) (output : List ℕ)
    → sleb_loop fuel value output ≡ output ++ sleb_bytes fuel value
unfolding sleb_loop sleb_bytes is_last
sleb_loop-bytes zero value output = sym (append-nil output)
sleb_loop-bytes (suc fuel) value output = ground (
  arith,
  bit_and_7f value,
  bit_and_40 (bit_and value 0x7f),
  continued value,
  sleb_loop-bytes fuel (shift_right_7 value) (output ++ (bit_or (bit_and value 0x7f) 0x80 ∷ [])),
  append_assoc output ((value % 128 + 128) ∷ []) (sleb_bytes fuel (shift_right_7 value)),
)

pub encode_sleb128-append :
    (value : ℕ) (output : List ℕ) → encode_sleb128 value output ≡ output ++ sleb_bytes 10 value
unfolding encode_sleb128
encode_sleb128-append value output = sleb_loop-bytes 10 value output

pub encode_sleb128-behind :
    (value : ℕ) (output : List ℕ) → encode_sleb128 value output ≡ output ++ encode_sleb128 value []
encode_sleb128-behind value output =
    encode_sleb128-append value output ∙ ap (◌++◌ output) (sym (encode_sleb128-append value []))

-- The shift of a number that is not negative, and of a negative one, `2 ^ 64 - m` for `m` from 1 on.
bytes-pos_last : (f w : ℕ) → w < 64 → sleb_bytes (suc f) w ≡ w ∷ []
unfolding sleb_bytes is_last shift_right_7
bytes-pos_last f w h = ground arith

bytes-pos_more :
    (f w : ℕ)
    → 64 ≤ w
    → w < 2 ^ 63
    → sleb_bytes (suc f) w ≡ (w % 128 + 128) ∷ sleb_bytes f (w / 128)
unfolding sleb_bytes is_last shift_right_7
bytes-pos_more f w h k = ground arith

abbrev negative : ℕ → ℕ
negative m = 2 ^ 64 - m

shift-negative :
    (m : ℕ) → 1 ≤ m → m ≤ 2 ^ 63 → shift_right_7 (negative m) ≡ negative ((m + 127) / 128)
unfolding shift_right_7
shift-negative m h k = ground arith

group-negative : (m : ℕ) → 1 ≤ m → m ≤ 2 ^ 63 → negative m % 128 ≡ (m + 127) / 128 * 128 - m
group-negative m h k = omega arith

bytes-neg_last : (f m : ℕ) → 1 ≤ m → m ≤ 64 → sleb_bytes (suc f) (negative m) ≡ (128 - m) ∷ []
unfolding sleb_bytes is_last
bytes-neg_last f m h k =
    ground (arith, shift-negative m h (omega arith), group-negative m h (omega arith))

bytes-neg_more :
    (f m : ℕ)
    → 64 < m
    → m ≤ 2 ^ 63
    → sleb_bytes (suc f) (negative m)
      ≡ ((m + 127) / 128 * 128 - m + 128) ∷ sleb_bytes f (negative ((m + 127) / 128))
unfolding sleb_bytes is_last
bytes-neg_more f m h k =
    ground (arith, shift-negative m (omega arith) k, group-negative m (omega arith) k)

pow_split : (t u v : ℕ) → t + u ≡ v → 2 ^ v ≡ 2 ^ u * 2 ^ t
pow_split zero u v e = let e' : v ≡ u = omega arith in rw e' (omega arith)
pow_split (suc t) u zero e = absurd (omega arith)
pow_split (suc t) u (suc v) e = omega (
  arith,
  pow-suc 2 t,
  pow-suc 2 v,
  pow_split t u v (omega arith),
  ap (λ (x : ℕ). 2 ^ u * x) (pow-suc 2 t),
)

pow_le : (t u : ℕ) → t ≤ u → 2 ^ t ≤ 2 ^ u
pow_le t u h = pow-le-pow_right (omega arith) h

pred_mul : (a p : ℕ) → 1 ≤ a → (a - 1) * p + p ≡ a * p
pred_mul zero p h = absurd (omega arith)
pred_mul (suc a) p h = let e : suc a - 1 ≡ a = omega arith in rw e (omega arith)

-- The bits from `t` on, all set.
ones_above : (t : ℕ) → t ≤ 64 → 2 ^ 64 - 2 ^ t ≡ (2 ^ (64 - t) - 1) * 2 ^ t
ones_above t h = omega (
  arith,
  pow_split t (64 - t) 64 (omega arith),
  pred_mul (2 ^ (64 - t)) (2 ^ t) (one-le-pow (64 - t) 2 (omega arith)),
)

extended :
    (t value : ℕ)
    → t ≤ 64
    → value < 2 ^ t
    → bit_or value (2 ^ 64 - 2 ^ t) ≡ value + (2 ^ 64 - 2 ^ t)
extended t value h below =
    ap (bit_or value) (ones_above t h)
    ∙ bit_or_shifted t value (2 ^ (64 - t) - 1) below
    ∙ ap (λ (x : ℕ). value + x) (sym (ones_above t h))

-- One round of the decoder on a group with bit 7 set.
inner_group :
    (s acc g i : ℕ) (input : List ℕ)
    → acc < 2 ^ s
    → g < 128
    → s ≤ 56
    → decode_sleb_loop ((g + 128) ∷ input) acc s i
      ≡ decode_sleb_loop input (acc + g * 2 ^ s) (s + 7) (i + 1)
unfolding decode_sleb_loop
inner_group s acc g i input below small early = ground (
  arith,
  joined s acc g (g + 128) below (omega arith)
      (omega (arith, group_bound g (2 ^ s) small, shift_seven s, pow_le (s + 7) 63 (omega arith))),
  bit_and_80 (g + 128),
)

abbrev decoded : ℕ → ℕ → Option DecodeResult
decoded value n = some (record { value = value; bytes_read = n })

-- The last round, on a number that is not negative.
last_pos :
    (s acc w i : ℕ) (rest : List ℕ)
    → acc < 2 ^ s
    → w < 64
    → acc + w * 2 ^ s < 2 ^ 63
    → s ≤ 63
    → decode_sleb_loop (w ∷ rest) acc s i ≡ decoded (acc + w * 2 ^ s) (i + 1)
unfolding decode_sleb_loop
last_pos s acc w i rest below small fits early =
    ground (arith, joined s acc w w below (omega arith) (omega arith), bit_and_80 w, bit_and_40 w)

whole_bound : (s acc w : ℕ) → acc + w * 2 ^ s < 2 ^ 63 → w < 2 ^ 63
whole_bound s acc w h = grind (arith, one-le-pow s 2 (omega arith))

-- The rounds of the encoder against the decoder at the shift `s`, on a number that is not negative.
decode-pos :
    (f w s acc i : ℕ) (rest : List ℕ)
    → s + 7 * f ≡ 63
    → w < 64 * 128 ^ f
    → acc < 2 ^ s
    → acc + w * 2 ^ s < 2 ^ 63
    → decode_sleb_loop (sleb_bytes (suc f) w ++ rest) acc s i
      ≡ decoded (acc + w * 2 ^ s) (i + length (sleb_bytes (suc f) w))
decode-pos zero w s acc i rest hs hw below fits =
    rw (bytes-pos_last 0 w (omega arith))
      (last_pos s acc w i rest below (omega arith) fits (omega arith))
decode-pos (suc f) w s acc i rest hs hw below fits = elim (dec_lt w 64) [
  | yes h ↦ rw (bytes-pos_last (suc f) w h) (last_pos s acc w i rest below h fits (omega arith))
  | no h ↦ rw (bytes-pos_more (suc f) w (omega arith) (whole_bound s acc w fits)) (
      inner_group s acc (w % 128) i (sleb_bytes (suc f) (w / 128) ++ rest) below (omega arith)
        (omega arith)
      ∙ decode-pos f (w / 128) (s + 7) (acc + w % 128 * 2 ^ s) (i + 1) rest (omega arith)
          (omega arith) (omega (arith, shift_seven s, group_bound (w % 128) (2 ^ s) (omega arith)))
          (omega (arith, split_group w s))
      ∙ ground (arith, split_group w s))
]

sub_mul : (k m p : ℕ) → m ≤ k → (k - m) * p + m * p ≡ k * p
sub_mul k m p h = let e : k - m + m ≡ k = omega arith in omega (arith, ap (λ (t : ℕ). t * p) e)

-- The last round, on -m: the bits above the group are set, unless none are left.
last_neg :
    (s acc m i : ℕ) (rest : List ℕ)
    → acc < 2 ^ s
    → 1 ≤ m
    → m ≤ 64
    → s ≤ 56
    → decode_sleb_loop ((128 - m) ∷ rest) acc s i ≡ decoded (2 ^ 64 + acc - m * 2 ^ s) (i + 1)
unfolding decode_sleb_loop sign_extend
last_neg s acc m i rest below lo hi early = ground (
  arith,
  joined s acc (128 - m) (128 - m) below (omega arith) fits,
  bit_and_80 (128 - m),
  bit_and_40 (128 - m),
  extended (s + 7) (acc + (128 - m) * 2 ^ s) (omega arith) inside,
  shift_seven s,
  spread,
  top,
)
  where
    spread : (128 - m) * 2 ^ s + m * 2 ^ s ≡ 128 * 2 ^ s
    spread = sub_mul 128 m (2 ^ s) (omega arith)

    inside : acc + (128 - m) * 2 ^ s < 2 ^ (s + 7)
    inside = omega (arith, group_bound (128 - m) (2 ^ s) (omega arith), shift_seven s)

    top : 2 ^ (s + 7) ≤ 2 ^ 63
    top = pow_le (s + 7) 63 (omega arith)

    fits : acc + (128 - m) * 2 ^ s < 2 ^ 64
    fits = omega (arith, inside, top)

-- In the tenth round one bit is left.
last_neg_top :
    (acc m i : ℕ) (rest : List ℕ)
    → acc < 2 ^ 63
    → 1 ≤ m
    → m * 2 ^ 63 ≤ 2 ^ 63 + acc
    → decode_sleb_loop ((128 - m) ∷ rest) acc 63 i ≡ decoded (2 ^ 64 + acc - m * 2 ^ 63) (i + 1)
unfolding decode_sleb_loop sign_extend
last_neg_top acc m i rest below lo fits =
    let e : m ≡ 1 = omega arith in rw e (ground (arith, bit_or_shifted 63 acc 1 below))

carried : (m p : ℕ) → (m + 127) / 128 * 128 * p ≡ m * p + ((m + 127) / 128 * 128 - m) * p
carried m p =
    let e : (m + 127) / 128 * 128 ≡ m + ((m + 127) / 128 * 128 - m) = omega arith in
    omega (arith, ap (λ (t : ℕ). t * p) e)

factor_bound : (m a p : ℕ) → 1 ≤ p → m * p < a + p → m ≤ a
factor_bound m a zero h k = absurd (omega arith)
factor_bound m a (suc p) h k = elim (dec_lt a m) [
  | no l ↦ omega arith
  | yes l ↦ absurd (omega (arith, mul-le-mul_right' l))
]
  where
    mul-le-mul_right' : a < m → (a + 1) * suc p ≤ m * suc p
    mul-le-mul_right' l = grind arith

neg_bound : (s acc m : ℕ) → acc < 2 ^ s → m * 2 ^ s ≤ 2 ^ 63 + acc → m ≤ 2 ^ 63
neg_bound s acc m h k = factor_bound m (2 ^ 63) (2 ^ s) (one-le-pow s 2 (omega arith)) (omega arith)

-- The rounds of the encoder against the decoder at the shift `s`, on -m.
decode-neg :
    (f m s acc i : ℕ) (rest : List ℕ)
    → s + 7 * f ≡ 63
    → 1 ≤ m
    → m ≤ 64 * 128 ^ f
    → acc < 2 ^ s
    → m * 2 ^ s ≤ 2 ^ 63 + acc
    → decode_sleb_loop (sleb_bytes (suc f) (negative m) ++ rest) acc s i
      ≡ decoded (2 ^ 64 + acc - m * 2 ^ s) (i + length (sleb_bytes (suc f) (negative m)))
decode-neg zero m s acc i rest hs lo hm below fits =
    let e : s ≡ 63 = omega arith in
    rw (bytes-neg_last 0 m lo (omega arith)) (
      subst
        (λ (t : ℕ).
          decode_sleb_loop ((128 - m) ∷ rest) acc t i ≡ decoded (2 ^ 64 + acc - m * 2 ^ t) (i + 1))
        (sym e) (last_neg_top acc m i rest (rw e at below) lo (rw e at fits)))
decode-neg (suc f) m s acc i rest hs lo hm below fits = elim (dec_lt 64 m) [
  | no h ↦
      rw (bytes-neg_last (suc f) m lo (omega arith))
        (last_neg s acc m i rest below lo (omega arith) (omega arith))
  | yes h ↦
      let m' = (m + 127) / 128 in
      let g = m' * 128 - m in
      let carry : m' * 128 * 2 ^ s ≡ m * 2 ^ s + g * 2 ^ s = carried m (2 ^ s) in
      rw (bytes-neg_more (suc f) m h (neg_bound s acc m below fits)) (
        inner_group s acc g i (sleb_bytes (suc f) (negative m') ++ rest) below (omega arith)
          (omega arith)
        ∙ decode-neg f m' (s + 7) (acc + g * 2 ^ s) (i + 1) rest (omega arith) (omega arith)
            (omega arith) (omega (arith, shift_seven s, group_bound g (2 ^ s) (omega arith)))
            (omega (arith, carry, ap (λ (t : ℕ). m' * t) (shift_seven s)))
        ∙ ground (arith, carry, ap (λ (t : ℕ). m' * t) (shift_seven s)))
]

-- The decoder reads back an `int64_t` that the encoder wrote, whatever follows it, and consumes what
-- the encoder wrote.
pub decode-encode_sleb128 :
    (value : ℕ) (rest : List ℕ)
    → value < 2 ^ 64
    → decode_sleb128 (encode_sleb128 value [] ++ rest)
      ≡ some (record { value = value; bytes_read = length (encode_sleb128 value []) })
unfolding decode_sleb128
decode-encode_sleb128 value rest h =
    rw (encode_sleb128-append value []) (elim (dec_lt value (2 ^ 63)) [
      | yes p ↦
          decode-pos 9 value 0 0 0 rest (omega arith) (omega arith) (omega arith) (omega arith)
          ∙ ground arith
      | no p ↦
          let e : value ≡ negative (2 ^ 64 - value) = omega arith in
          subst
            (λ (v : ℕ).
              decode_sleb_loop (sleb_bytes 10 v ++ rest) 0 0 0
              ≡ decoded v (length (sleb_bytes 10 v)))
            (sym e)
            (decode-neg 9 (2 ^ 64 - value) 0 0 0 rest (omega arith) (omega arith) (omega arith)
                (omega arith) (omega arith)
              ∙ ground arith)
    ])

-- An encoding has a byte at least.
pub encode_sleb128_nonempty : (v : ℕ) → 1 ≤ length (encode_sleb128 v [])
unfolding sleb_bytes
encode_sleb128_nonempty v = rw (encode_sleb128-append v []) (ground arith)
