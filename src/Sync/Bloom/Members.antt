-- ===== src/Sync/Bloom/Members.antt =====
-- The filter has no false negatives.
use Prim.Native.Nat.{bit_or}
use native.Mathlib.Nat.{mod-lt, mod-le, div_self}
use automerge_cpp.Prelude.{
  ℕ, zero, suc, ◌+◌, ◌*◌, ◌/◌, ◌%◌, ◌^◌, ◌≤◌, ◌<◌, ◌≡◌, refl, ap, ◌∙◌, arith, ◌==◌, length, get_or,
  All, Bool-cases, inl, inr, subst, length-replicate,
}
use automerge_cpp.Prelude.{true, false, List, [], ◌∷◌}
use automerge_cpp.Prelude.Bits.{digit-bit_or, bit_and-power, power_pos}
use automerge_cpp.Prelude.Order.{eqb, eqb-eq}
use automerge_cpp.Types.{ChangeHash, hash_ord}
use automerge_cpp.DocState.{contains}
use automerge_cpp.Sync.Bloom.{
  BloomFilter, bit_capacity, sized, modulo, word_at, next_probes, get_probes, get_bit, modify_byte,
  set_bit, set_bits, all_bits, is_nil, add_hash, contains_hash, add_hashes, from_hashes,
}

-- The bit at a position, as a number.
digit_at : ℕ → List ℕ → ℕ
digit_at pos bits = get_or bits (pos / 8) 0 / 2 ^ (pos % 8) % 2

get_bit-digit : (pos : ℕ) (bits : List ℕ) → digit_at pos bits ≡ 1 → get_bit pos bits ≡ true
unfolding get_bit digit_at
get_bit-digit pos bits h = ground (
  arith,
  bit_and-power (pos % 8) (get_or bits (pos / 8) 0),
  power_pos (pos % 8),
  ap (λ (t : ℕ). t * 2 ^ (pos % 8)) h,
)

get_or-modify_same :
    (i : ℕ) (f : ℕ → ℕ) (bits : List ℕ)
    → i < length bits
    → get_or (modify_byte i f bits) i 0 ≡ f (get_or bits i 0)
get_or-modify_same i f [] h = absurd (omega arith)
get_or-modify_same zero f (b ∷ bits) h = refl
get_or-modify_same (suc i) f (b ∷ bits) h = get_or-modify_same i f bits (omega arith)

digit-modify_byte :
    (i j k m : ℕ) (bits : List ℕ)
    → get_or bits j 0 / 2 ^ m % 2 ≡ 1
    → get_or (modify_byte i (λ b. bit_or b (2 ^ k)) bits) j 0 / 2 ^ m % 2 ≡ 1
digit-modify_byte i j k m [] h = h
digit-modify_byte zero zero k m (b ∷ bits) h = omega (arith, digit-bit_or m b (2 ^ k))
digit-modify_byte zero (suc j) k m (b ∷ bits) h = h
digit-modify_byte (suc i) zero k m (b ∷ bits) h = h
digit-modify_byte (suc i) (suc j) k m (b ∷ bits) h = digit-modify_byte i j k m bits h

length-modify_byte :
    (i : ℕ) (f : ℕ → ℕ) (bits : List ℕ) → length (modify_byte i f bits) ≡ length bits
length-modify_byte i f [] = refl
length-modify_byte zero f (b ∷ bits) = refl
length-modify_byte (suc i) f (b ∷ bits) = ap suc (length-modify_byte i f bits)

digit-set_self : (p : ℕ) (bits : List ℕ) → p / 8 < length bits → digit_at p (set_bit p bits) ≡ 1
unfolding digit_at set_bit
digit-set_self p bits h =
    ap (λ (t : ℕ). t / 2 ^ (p % 8) % 2)
      (get_or-modify_same (p / 8) (λ b. bit_or b (2 ^ (p % 8))) bits h)
    ∙ omega (
      arith,
      digit-bit_or (p % 8) (get_or bits (p / 8) 0) (2 ^ (p % 8)),
      div_self (power_pos (p % 8)),
    )

digit-set_keeps : (p q : ℕ) (bits : List ℕ) → digit_at p bits ≡ 1 → digit_at p (set_bit q bits) ≡ 1
unfolding digit_at set_bit
digit-set_keeps p q bits h = digit-modify_byte (q / 8) (p / 8) (q % 8) (p % 8) bits h

length-set_bits : (ps bits : List ℕ) → length (set_bits ps bits) ≡ length bits
unfolding set_bits set_bit
length-set_bits [] bits = refl
length-set_bits (p ∷ ps) bits =
    length-set_bits ps (set_bit p bits)
    ∙ length-modify_byte (p / 8) (λ b. bit_or b (2 ^ (p % 8))) bits

digit-set_bits :
    (p : ℕ) (ps bits : List ℕ) → digit_at p bits ≡ 1 → digit_at p (set_bits ps bits) ≡ 1
unfolding set_bits
digit-set_bits p [] bits h = h
digit-set_bits p (q ∷ ps) bits h = digit-set_bits p ps (set_bit q bits) (digit-set_keeps p q bits h)

abbrev AllSet : List ℕ → List ℕ → Type 0
AllSet bits ps = All (λ p. digit_at p bits ≡ 1) ps

abbrev InRange : List ℕ → List ℕ → Type 0
InRange bits ps = All (λ p. p / 8 < length bits) ps

InRange-set : (q : ℕ) (bits ps : List ℕ) → InRange bits ps → InRange (set_bit q bits) ps
unfolding set_bit
InRange-set q bits [] h = tt
InRange-set q bits (p ∷ ps) h = (
  omega (arith, h.0, length-modify_byte (q / 8) (λ b. bit_or b (2 ^ (q % 8))) bits),
  InRange-set q bits ps h.1,
)

set_bits-AllSet : (ps bits : List ℕ) → InRange bits ps → AllSet (set_bits ps bits) ps
unfolding set_bits
set_bits-AllSet [] bits h = tt
set_bits-AllSet (p ∷ ps) bits h = (
  digit-set_bits p ps (set_bit p bits) (digit-set_self p bits h.0),
  set_bits-AllSet ps (set_bit p bits) (InRange-set p bits ps h.1),
)

all_bits-AllSet : (ps bits : List ℕ) → AllSet bits ps → all_bits ps bits ≡ true
unfolding all_bits
all_bits-AllSet [] bits h = refl
all_bits-AllSet (p ∷ ps) bits h =
    ground (arith, get_bit-digit p bits h.0, all_bits-AllSet ps bits h.1)

AllSet-set_bits : (ps qs bits : List ℕ) → AllSet bits ps → AllSet (set_bits qs bits) ps
AllSet-set_bits [] qs bits h = tt
AllSet-set_bits (p ∷ ps) qs bits h = (digit-set_bits p qs bits h.0, AllSet-set_bits ps qs bits h.1)

next_probes-below :
    (n m x y z l : ℕ) → 0 < m → m ≤ l * 8 → All (λ p. p / 8 < l) (next_probes n m x y z)
unfolding next_probes
next_probes-below zero m x y z l pos le = tt
next_probes-below (suc n) m x y z l pos le = (
  omega (arith, mod-lt ((x + y) % 2 ^ 32) pos),
  next_probes-below n m ((x + y) % 2 ^ 32 % m) ((y + z) % 2 ^ 32 % m) z l pos le,
)

get_probes-InRange :
    (h : ChangeHash) (f : BloomFilter) → 0 < length f.bits → InRange f.bits (get_probes h f)
unfolding get_probes
get_probes-InRange h f nonempty = elim (Bool-cases (modulo f == 0)) [
  | inl none_left ↦ rw none_left (omega arith)
  | inr some_left ↦
      let pos : 0 < modulo f = ground arith in
      let le : modulo f ≤ length f.bits * 8 =
        unfold modulo in mod-le (length f.bits * 8) (2 ^ 32) in
      rw some_left (
        omega (arith, mod-lt (word_at h.bytes 0) pos),
        next_probes-below 6 (modulo f) (word_at h.bytes 0 % modulo f) (word_at h.bytes 4 % modulo f)
            (word_at h.bytes 8 % modulo f) (length f.bits) pos le,
      )
]

-- Adding a hash keeps the size of the filter, and so the probes of every hash.
length-add_hash : (h : ChangeHash) (f : BloomFilter) → length (add_hash h f).bits ≡ length f.bits
unfolding add_hash
length-add_hash h f = ground (arith, length-set_bits (get_probes h f) f.bits)

get_probes-add_hash :
    (g h : ChangeHash) (f : BloomFilter) → get_probes g (add_hash h f) ≡ get_probes g f
unfolding get_probes modulo
get_probes-add_hash g h f = rw (length-add_hash h f) refl

-- The bits of a hash are set.
abbrev IsAdded : ChangeHash → BloomFilter → Type 0
IsAdded h f = AllSet f.bits (get_probes h f)

is_nil-length : (xs : List ℕ) → 0 < length xs → is_nil xs ≡ false
is_nil-length [] h = absurd (omega arith)
is_nil-length (x ∷ xs) h = refl

bits-add_hash :
    (h : ChangeHash) (f : BloomFilter)
    → is_nil f.bits ≡ false
    → (add_hash h f).bits ≡ set_bits (get_probes h f) f.bits
unfolding add_hash
bits-add_hash h f some_bits = rw some_bits refl

unchanged : (h : ChangeHash) (f : BloomFilter) → is_nil f.bits ≡ true → add_hash h f ≡ f
unfolding add_hash
unchanged h f no_bits = rw no_bits refl

add_hash-IsAdded_self :
    (h : ChangeHash) (f : BloomFilter) → 0 < length f.bits → IsAdded h (add_hash h f)
add_hash-IsAdded_self h f nonempty =
    rw (get_probes-add_hash h h f, bits-add_hash h f (is_nil-length f.bits nonempty))
      (set_bits-AllSet (get_probes h f) f.bits (get_probes-InRange h f nonempty))

add_hash-IsAdded : (g h : ChangeHash) (f : BloomFilter) → IsAdded g f → IsAdded g (add_hash h f)
add_hash-IsAdded g h f added = elim (Bool-cases (is_nil f.bits)) [
  | inl no_bits ↦ rw (unchanged h f no_bits) added
  | inr some_bits ↦
      rw (get_probes-add_hash g h f, bits-add_hash h f some_bits)
        (AllSet-set_bits (get_probes g f) (get_probes h f) f.bits added)
]

add_hashes-IsAdded :
    (g : ChangeHash) (hs : List ChangeHash) (f : BloomFilter)
    → IsAdded g f
    → IsAdded g (add_hashes hs f)
unfolding add_hashes
add_hashes-IsAdded g [] f added = added
add_hashes-IsAdded g (h ∷ hs) f added =
    add_hashes-IsAdded g hs (add_hash h f) (add_hash-IsAdded g h f added)

length-add_hashes :
    (hs : List ChangeHash) (f : BloomFilter) → length (add_hashes hs f).bits ≡ length f.bits
unfolding add_hashes
length-add_hashes [] f = refl
length-add_hashes (h ∷ hs) f = length-add_hashes hs (add_hash h f) ∙ length-add_hash h f

Has-IsAdded :
    (g : ChangeHash) (hs : List ChangeHash) (f : BloomFilter)
    → 0 < length f.bits
    → contains hs g ≡ true
    → IsAdded g (add_hashes hs f)
unfolding add_hashes contains
Has-IsAdded g [] f nonempty here = absurd (cc)
Has-IsAdded g (h ∷ hs) f nonempty here = elim (Bool-cases (eqb h g)) [
  | inl same ↦ add_hashes-IsAdded g hs (add_hash h f) (
      subst (λ (t : ChangeHash). IsAdded t (add_hash h f)) (eqb-eq h g same)
        (add_hash-IsAdded_self h f nonempty))
  | inr other ↦ Has-IsAdded g hs (add_hash h f) (omega (arith, length-add_hash h f)) (ground arith)
]

contains_hash-IsAdded :
    (h : ChangeHash) (f : BloomFilter) → 0 < length f.bits → IsAdded h f → contains_hash h f ≡ true
unfolding contains_hash
contains_hash-IsAdded h f nonempty added =
    ground (arith, all_bits-AllSet (get_probes h f) f.bits added)

sized_nonempty :
    (h : ChangeHash) (hashes : List ChangeHash)
    → length hashes < 2 ^ 32
    → contains hashes h ≡ true
    → 0 < length (sized (length hashes % 2 ^ 32)).bits
unfolding sized bit_capacity contains
sized_nonempty h [] few here = absurd (cc)
sized_nonempty h (g ∷ hs) few here =
    omega (arith, length-replicate {A = ℕ} (((suc (length hs)) % 2 ^ 32 * 10 + 7) / 8) 0)

-- The filter of some hashes, fewer than 2 ^ 32, contains every one of them.
pub contains_hash-from_hashes :
    (h : ChangeHash) (hashes : List ChangeHash)
    → length hashes < 2 ^ 32
    → contains hashes h ≡ true
    → contains_hash h (from_hashes hashes) ≡ true
unfolding from_hashes
contains_hash-from_hashes h hashes few here =
    let f = sized (length hashes % 2 ^ 32) in
    let nonempty : 0 < length f.bits = sized_nonempty h hashes few here in
    contains_hash-IsAdded h (add_hashes hashes f) (omega (arith, length-add_hashes hashes f))
      (Has-IsAdded h hashes f nonempty here)
