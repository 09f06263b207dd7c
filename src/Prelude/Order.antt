-- ===== src/Prelude/Order.antt =====
-- Three-way comparison, as `operator<=>` gives it: an interface with its laws, and the
-- lexicographic comparison of byte sequences (`std::array` and `std::string`).
use Prim.Native.Nat.{ℕ, compare, Ordering}
use mathlib.Core.Path.{◌≡◌, refl}
use mathlib.Core.Logic.{◌↔◌, ◌⊎◌, inl, inr}
use mathlib.Core.Bool.{Bool, true, false}
use mathlib.Core.List.{List, [], ◌∷◌}
use native.Mathlib.Omega.{arith}

abbrev pub flip : Ordering → Ordering
flip Ordering.lt = Ordering.gt
flip Ordering.eq = Ordering.eq
flip Ordering.gt = Ordering.lt

abbrev pub is_eq : Ordering → Bool
is_eq Ordering.eq = true
is_eq _ = false

abbrev pub is_lt : Ordering → Bool
is_lt Ordering.lt = true
is_lt _ = false

-- The order of two pairs by their first parts, and by their second parts where these are equal.
abbrev pub then_by : Ordering → Ordering → Ordering
then_by Ordering.lt c = Ordering.lt
then_by Ordering.eq c = c
then_by Ordering.gt c = Ordering.gt

pub Ordering-cases : (c : Ordering) → (c ≡ Ordering.lt) ⊎ ((c ≡ Ordering.eq) ⊎ (c ≡ Ordering.gt))
Ordering-cases Ordering.lt = inl refl
Ordering-cases Ordering.eq = inr (inl refl)
Ordering-cases Ordering.gt = inr (inr refl)

-- A total order by a three-way comparison.
pub record Ord {ℓ} (A : Type ℓ) : Type ℓ where
  pub cmp : A → A → Ordering
  pub cmp_refl : (a : A) → cmp a a ≡ Ordering.eq
  pub cmp-eq : (a b : A) → cmp a b ≡ Ordering.eq → a ≡ b
  pub cmp-flip : (a b : A) → cmp b a ≡ flip (cmp a b)
  pub cmp_trans :
      (a b c : A) → cmp a b ≡ Ordering.lt → cmp b c ≡ Ordering.lt → cmp a c ≡ Ordering.lt

-- Equality and order as Boolean tests of any such type.
abbrev pub eqb {ℓ} : {A : Type ℓ} ⦃o : Ord A⦄ → A → A → Bool
eqb ⦃o⦄ a b = is_eq (o.cmp a b)

abbrev pub lessb {ℓ} : {A : Type ℓ} ⦃o : Ord A⦄ → A → A → Bool
lessb ⦃o⦄ a b = is_lt (o.cmp a b)

module _ {ℓ} {A : Type ℓ} ⦃o : Ord A⦄ where
  pub eqb-eq : (a b : A) → eqb a b ≡ true → a ≡ b
  eqb-eq a b h = o.cmp-eq a b (ground arith)

  pub eqb_refl : (a : A) → eqb a a ≡ true
  eqb_refl a = ground (arith, o.cmp_refl a)

  pub eqb_iff : (a b : A) → (eqb a b ≡ true) ↔ (a ≡ b)
  eqb_iff a b = (eqb-eq a b, λ e. ground (arith, o.cmp_refl a, e))

  pub eqb_comm : (a b : A) → eqb a b ≡ eqb b a
  eqb_comm a b = ground (arith, o.cmp-flip a b)

-- Bytes in lexicographic order, a proper prefix first.
unfoldable pub compare_bytes : List ℕ → List ℕ → Ordering
compare_bytes [] [] = Ordering.eq
compare_bytes [] (y ∷ ys) = Ordering.lt
compare_bytes (x ∷ xs) [] = Ordering.gt
compare_bytes (x ∷ xs) (y ∷ ys) = then_by (compare x y) (compare_bytes xs ys)

pub compare_bytes_refl : (a : List ℕ) → compare_bytes a a ≡ Ordering.eq
unfolding compare_bytes
compare_bytes_refl [] = refl
compare_bytes_refl (x ∷ xs) = ground (arith, compare_bytes_refl xs)

pub compare_bytes-eq : (a b : List ℕ) → compare_bytes a b ≡ Ordering.eq → a ≡ b
unfolding compare_bytes
compare_bytes-eq [] [] h = refl
compare_bytes-eq [] (y ∷ ys) h = cc
compare_bytes-eq (x ∷ xs) [] h = cc
compare_bytes-eq (x ∷ xs) (y ∷ ys) h = ground (arith, compare_bytes-eq xs ys)

pub compare_bytes-flip : (a b : List ℕ) → compare_bytes b a ≡ flip (compare_bytes a b)
unfolding compare_bytes
compare_bytes-flip [] [] = refl
compare_bytes-flip [] (y ∷ ys) = refl
compare_bytes-flip (x ∷ xs) [] = refl
compare_bytes-flip (x ∷ xs) (y ∷ ys) = ground (arith, compare_bytes-flip xs ys)

pub compare_bytes_trans :
    (a b c : List ℕ)
    → compare_bytes a b ≡ Ordering.lt
    → compare_bytes b c ≡ Ordering.lt
    → compare_bytes a c ≡ Ordering.lt
unfolding compare_bytes
compare_bytes_trans [] [] c h k = cc
compare_bytes_trans [] (y ∷ ys) [] h k = cc
compare_bytes_trans [] (y ∷ ys) (z ∷ zs) h k = refl
compare_bytes_trans (x ∷ xs) [] c h k = cc
compare_bytes_trans (x ∷ xs) (y ∷ ys) [] h k = cc
compare_bytes_trans (x ∷ xs) (y ∷ ys) (z ∷ zs) h k = ground (arith, compare_bytes_trans xs ys zs)

instance abbrev pub bytes_ord : Ord (List ℕ)
bytes_ord = record {
  cmp = compare_bytes;
  cmp_refl = compare_bytes_refl;
  cmp-eq = compare_bytes-eq;
  cmp-flip = compare_bytes-flip;
  cmp_trans = compare_bytes_trans;
}
