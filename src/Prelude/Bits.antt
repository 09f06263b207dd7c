-- ===== src/Prelude/Bits.antt =====
-- `|` of disjoint fields and `&` with a mask, as arithmetic, at every width.
use Prim.Native.Nat.{
  ℕ, zero, suc, ◌+◌, ◌*◌, ◌-◌, ◌/◌, ◌%◌, ◌^◌, ◌≤◌, ◌<◌, min, max, bit_and, bit_or, digits, bitwise,
  bit_and-bitwise, bit_or-bitwise,
}
use mathlib.Core.Path.{◌≡◌, refl, ap, sym, ◌∙◌}
use native.Mathlib.Nat.{le_refl, pow-suc, div-add-mod', mod-lt, div-div-eq-div-mul}
use native.Mathlib.Omega.{arith}

-- An operation on binary digits: `f` on each pair of digits, and `z` on what the second operand has
-- left when the first one has no digit any more.
module _ (z : ℕ → ℕ) (f : ℕ → ℕ → ℕ) where
  no_digits : (fuel b : ℕ) → digits z f fuel 0 b ≡ z b
  no_digits zero b = refl
  no_digits (suc _) b = refl

  -- Fuel beyond the first operand changes nothing.
  spare_fuel : (a fuel spare b : ℕ) → a ≤ fuel → digits z f (fuel + spare) a b ≡ digits z f fuel a b
  spare_fuel zero fuel spare b _ = no_digits (fuel + spare) b ∙ sym (no_digits fuel b)
  spare_fuel (suc a) zero spare b le = absurd (omega arith)
  spare_fuel (suc a) (suc fuel) spare b le =
      let out : suc fuel + spare ≡ suc (fuel + spare) = omega arith in
      ap (λ (t : ℕ). digits z f t (suc a) b) out
      ∙ ap (λ (t : ℕ). t * 2 + f (suc a % 2) (b % 2))
          (spare_fuel (suc a / 2) fuel spare (b / 2) (omega arith))

  module _ (op : ℕ → ℕ → ℕ) (op_is : (x y : ℕ) → op x y ≡ bitwise z f x y)
      (rest : (y : ℕ) → z y ≡ z (y / 2) * 2 + f 0 (y % 2)) where
    lowest_digit : (x y : ℕ) → op x y ≡ op (x / 2) (y / 2) * 2 + f (x % 2) (y % 2)
    lowest_digit zero y = omega (arith, op_is 0 y, op_is 0 (y / 2), rest y)
    lowest_digit (suc x) y =
        let half : ℕ = suc x / 2 in
        let exact : half + (x - half) ≡ x = omega arith in
        omega (
          arith,
          op_is (suc x) y,
          op_is half (y / 2),
          ap (λ (t : ℕ). digits z f t half (y / 2)) exact,
          spare_fuel half half (x - half) (y / 2) (le_refl _),
        )

or_digit : (x y : ℕ) → bit_or x y ≡ bit_or (x / 2) (y / 2) * 2 + max (x % 2) (y % 2)
or_digit = lowest_digit (λ y. y) max bit_or bit_or-bitwise (λ y. omega arith)

and_digit : (x y : ℕ) → bit_and x y ≡ bit_and (x / 2) (y / 2) * 2 + min (x % 2) (y % 2)
and_digit = lowest_digit (λ y. 0) min bit_and bit_and-bitwise (λ y. omega arith)

-- A value below 2 ^ s joined with a value shifted left by s is their sum.
pub bit_or_shifted : (s a c : ℕ) → a < 2 ^ s → bit_or a (c * 2 ^ s) ≡ a + c * 2 ^ s
bit_or_shifted zero zero c h = omega (arith, bit_or-bitwise 0 (c * 1))
bit_or_shifted zero (suc a) c h = absurd (omega arith)
bit_or_shifted (suc s) a c h = omega (
  arith,
  pow-suc 2 s,
  ap (λ (t : ℕ). c * t) (pow-suc 2 s),
  or_digit a (c * 2 ^ suc s),
  ap (bit_or (a / 2)) (halves c s),
  bit_or_shifted s (a / 2) c (omega (arith, pow-suc 2 s)),
)
  where
    halves : (c s : ℕ) → c * 2 ^ suc s / 2 ≡ c * 2 ^ s
    halves c s = omega (arith, ap (λ (t : ℕ). c * t) (pow-suc 2 s))

-- No bit of the mask is set: a is bounded by any width that holds it.
empty_mask : (width x : ℕ) → x ≤ width → bit_and x 0 ≡ 0
empty_mask _ zero _ = refl
empty_mask zero (suc x) le = absurd (omega arith)
empty_mask (suc width) (suc x) le =
    let half_le : suc x / 2 ≤ width = omega arith in
    and_digit (suc x) 0
    ∙ ap (λ (t : ℕ). t * 2 + min (suc x % 2) 0) (empty_mask width _ half_le)
    ∙ omega arith

lowest_bit : (x : ℕ) → bit_and x 1 ≡ x % 2
lowest_bit x = omega (arith, and_digit x 1, empty_mask (x / 2) (x / 2) (le_refl _))

-- A value cut at bit k, halved.
halved : (k q r : ℕ) → (q * 2 ^ suc k + r) / 2 ≡ q * 2 ^ k + r / 2
halved k q r = omega (arith, ap (λ (t : ℕ). q * t) (pow-suc 2 k))

lowest : (k q r : ℕ) → (q * 2 ^ suc k + r) % 2 ≡ r % 2
lowest k q r = omega (arith, ap (λ (t : ℕ). q * t) (pow-suc 2 k))

-- k bits, all set.
ones : ℕ → ℕ
ones zero = 0
ones (suc k) = ones k * 2 + 1

bit_and-ones : (k q r : ℕ) → r < 2 ^ k → bit_and (q * 2 ^ k + r) (ones k) ≡ r
unfolding ones
bit_and-ones zero q r h = omega (arith, empty_mask (q * 1 + r) (q * 1 + r) (le_refl _))
bit_and-ones (suc k) q r h =
    and_digit (q * 2 ^ suc k + r) (ones k * 2 + 1)
    ∙ ap
        (λ (t : ℕ).
          bit_and t ((ones k * 2 + 1) / 2) * 2
          + min ((q * 2 ^ suc k + r) % 2) ((ones k * 2 + 1) % 2))
        (halved k q r)
    ∙ ap
        (λ (t : ℕ).
          bit_and (q * 2 ^ k + r / 2) t * 2 + min ((q * 2 ^ suc k + r) % 2) ((ones k * 2 + 1) % 2))
        half_ones
    ∙ omega (arith, lowest k q r, bit_and-ones k q (r / 2) (omega (arith, pow-suc 2 k)))
  where
    half_ones : (ones k * 2 + 1) / 2 ≡ ones k
    half_ones = omega arith

bit_and-bit : (k q r : ℕ) → r < 2 ^ k → bit_and (q * 2 ^ k + r) (2 ^ k) ≡ q % 2 * 2 ^ k
bit_and-bit zero q r h =
    let e : q * 1 + r ≡ q = omega arith in
    ap (λ (t : ℕ). bit_and t 1) e ∙ omega (arith, lowest_bit q)
bit_and-bit (suc k) q r h =
    and_digit (q * 2 ^ suc k + r) (2 ^ suc k)
    ∙ ap (λ (t : ℕ). bit_and t (2 ^ suc k / 2) * 2 + min ((q * 2 ^ suc k + r) % 2) (2 ^ suc k % 2))
        (halved k q r)
    ∙ ap
        (λ (t : ℕ).
          bit_and (q * 2 ^ k + r / 2) t * 2 + min ((q * 2 ^ suc k + r) % 2) (2 ^ suc k % 2))
        half_pow
    ∙ omega (
      arith,
      pow-suc 2 k,
      ap (λ (t : ℕ). q % 2 * t) (pow-suc 2 k),
      bit_and-bit k q (r / 2) (omega (arith, pow-suc 2 k)),
    )
  where
    half_pow : 2 ^ suc k / 2 ≡ 2 ^ k
    half_pow = omega (arith, pow-suc 2 k)

-- `x & 0x7F`
pub bit_and_7f : (a : ℕ) → bit_and a 0x7f ≡ a % 128
unfolding ones
bit_and_7f a =
    let e : a ≡ a / 128 * 128 + a % 128 = omega arith in
    ap (λ (t : ℕ). bit_and t 0x7f) e ∙ bit_and-ones 7 (a / 128) (a % 128) (omega arith)

-- `x & 0x80`
pub bit_and_80 : (a : ℕ) → bit_and a 0x80 ≡ a / 128 % 2 * 128
bit_and_80 a =
    let e : a ≡ a / 128 * 128 + a % 128 = omega arith in
    ap (λ (t : ℕ). bit_and t 0x80) e ∙ bit_and-bit 7 (a / 128) (a % 128) (omega arith)

-- `x & 0x40`
pub bit_and_40 : (a : ℕ) → bit_and a 0x40 ≡ a / 64 % 2 * 64
bit_and_40 a =
    let e : a ≡ a / 64 * 64 + a % 64 = omega arith in
    ap (λ (t : ℕ). bit_and t 0x40) e ∙ bit_and-bit 6 (a / 64) (a % 64) (omega arith)

drop_digit : (k a : ℕ) → a / 2 ^ suc k ≡ a / 2 / 2 ^ k
drop_digit k a =
    ap (λ (t : ℕ). a / t) (pow-suc 2 k ∙ omega arith) ∙ sym (div-div-eq-div-mul a 2 (2 ^ k))

pub power_pos : (k : ℕ) → 0 < 2 ^ k
power_pos zero = omega arith
power_pos (suc k) = omega (arith, pow-suc 2 k, power_pos k)

-- A binary digit of a disjunction is one exactly if it is one in either operand.
pub digit-bit_or : (k a b : ℕ) → bit_or a b / 2 ^ k % 2 ≡ max (a / 2 ^ k % 2) (b / 2 ^ k % 2)
digit-bit_or zero a b = omega (arith, or_digit a b)
digit-bit_or (suc k) a b =
    ap (λ (t : ℕ). t % 2) (drop_digit k (bit_or a b))
    ∙ ap (λ (t : ℕ). t / 2 ^ k % 2) half
    ∙ digit-bit_or k (a / 2) (b / 2)
    ∙ sym (
        ap (λ (t : ℕ). max (t % 2) (b / 2 ^ suc k % 2)) (drop_digit k a)
        ∙ ap (λ (t : ℕ). max (a / 2 / 2 ^ k % 2) (t % 2)) (drop_digit k b))
  where
    half : bit_or a b / 2 ≡ bit_or (a / 2) (b / 2)
    half = omega (arith, or_digit a b)

-- `x & (1 << k)`
pub bit_and-power : (k a : ℕ) → bit_and a (2 ^ k) ≡ a / 2 ^ k % 2 * 2 ^ k
bit_and-power k a =
    let cut : a ≡ a / 2 ^ k * 2 ^ k + a % 2 ^ k = sym (div-add-mod' a (2 ^ k)) in
    ap (λ (t : ℕ). bit_and t (2 ^ k)) cut
    ∙ bit_and-bit k (a / 2 ^ k) (a % 2 ^ k) (mod-lt a (power_pos k))

-- `x & 0x07` and `x & 0x0F`
pub bit_and_07 : (a : ℕ) → bit_and a 0x07 ≡ a % 8
unfolding ones
bit_and_07 a =
    let e : a ≡ a / 8 * 8 + a % 8 = omega arith in
    ap (λ (t : ℕ). bit_and t 0x07) e ∙ bit_and-ones 3 (a / 8) (a % 8) (omega arith)

pub bit_and_0f : (a : ℕ) → bit_and a 0x0f ≡ a % 16
unfolding ones
bit_and_0f a =
    let e : a ≡ a / 16 * 16 + a % 16 = omega arith in
    ap (λ (t : ℕ). bit_and t 0x0f) e ∙ bit_and-ones 4 (a / 16) (a % 16) (omega arith)
