-- ===== src/Sync/Bloom.antt =====
-- src/sync/bloom_filter.hpp. A `uint32_t` is a number below 2 ^ 32 and an entry of `bits_` a byte;
-- `pos >> 3` and `pos & 7` are the quotient and the remainder by 8.
pub mod Members
pub mod Bytes
use Prim.Native.Nat.{bit_and, bit_or}
use automerge_cpp.Prelude.{
  ℕ, zero, suc, ◌+◌, ◌-◌, ◌*◌, ◌/◌, ◌%◌, ◌^◌, if◌then◌else◌, ◌==◌, length, get_or, drop, replicate,
}
use automerge_cpp.Prelude.{
  Bool, true, false, not, ◌&&◌, Option, none, some, List, [], ◌∷◌, ◌++◌, ◌>>=◌,
}
use automerge_cpp.Types.{ChangeHash}
use automerge_cpp.Encoding.Leb128.{encode_uleb128, decode_uleb128}

pub record BloomFilter : Type 0 where
  pub num_entries : ℕ
  pub num_bits_per_entry : ℕ
  pub num_probes : ℕ
  pub bits : List ℕ

-- `BloomFilter()`
abbrev pub empty_filter : BloomFilter
empty_filter = record { num_entries = 0; num_bits_per_entry = 10; num_probes = 7; bits = [] }

unfoldable pub bit_capacity : ℕ → ℕ → ℕ
bit_capacity entries bits_per_entry = (entries * bits_per_entry + 7) / 8

-- `BloomFilter(num_entries)`
unfoldable pub sized : ℕ → BloomFilter
unfolding bit_capacity
sized num_entries = record {
  num_entries = num_entries;
  num_bits_per_entry = 10;
  num_probes = 7;
  bits = replicate (bit_capacity num_entries 10) 0;
}

unfoldable pub modulo : BloomFilter → ℕ
modulo f = length f.bits * 8 % 2 ^ 32

-- Four bytes of the hash from index `i` on, the lowest first.
unfoldable pub word_at : List ℕ → ℕ → ℕ
word_at bytes i =
    get_or bytes i 0
    + get_or bytes (i + 1) 0 * 2 ^ 8
    + get_or bytes (i + 2) 0 * 2 ^ 16
    + get_or bytes (i + 3) 0 * 2 ^ 24

-- The probes after the one at `x`, `n` of them.
unfoldable pub next_probes : ℕ → ℕ → ℕ → ℕ → ℕ → List ℕ
next_probes zero m x y z = []
next_probes (suc n) m x y z =
    let x' = (x + y) % 2 ^ 32 % m in let y' = (y + z) % 2 ^ 32 % m in x' ∷ next_probes n m x' y' z

unfoldable pub get_probes : ChangeHash → BloomFilter → List ℕ
unfolding modulo word_at
get_probes hash f =
    let m = modulo f in
    let x = word_at hash.bytes 0 % m in
    let y = word_at hash.bytes 4 % m in
    let z = word_at hash.bytes 8 % m in if m == 0 then replicate 7 0 else x ∷ next_probes 6 m x y z

unfoldable pub get_bit : ℕ → List ℕ → Bool
get_bit pos bits = not (bit_and (get_or bits (pos / 8) 0) (2 ^ (pos % 8)) == 0)

abbrev pub modify_byte : ℕ → (ℕ → ℕ) → List ℕ → List ℕ
modify_byte i f [] = []
modify_byte zero f (b ∷ bits) = f b ∷ bits
modify_byte (suc i) f (b ∷ bits) = b ∷ modify_byte i f bits

unfoldable pub set_bit : ℕ → List ℕ → List ℕ
set_bit pos bits = modify_byte (pos / 8) (λ b. bit_or b (2 ^ (pos % 8))) bits

unfoldable pub set_bits : List ℕ → List ℕ → List ℕ
unfolding set_bit
set_bits [] bits = bits
set_bits (p ∷ probes) bits = set_bits probes (set_bit p bits)

unfoldable pub all_bits : List ℕ → List ℕ → Bool
unfolding get_bit
all_bits [] bits = true
all_bits (p ∷ probes) bits = get_bit p bits && all_bits probes bits

abbrev pub is_nil {ℓ} : {A : Type ℓ} → List A → Bool
is_nil [] = true
is_nil (x ∷ xs) = false

unfoldable pub add_hash : ChangeHash → BloomFilter → BloomFilter
unfolding get_probes set_bits
add_hash hash f =
    if is_nil f.bits then f else (record f { bits = set_bits (get_probes hash f) f.bits })

unfoldable pub contains_hash : ChangeHash → BloomFilter → Bool
unfolding get_probes all_bits
contains_hash hash f = if is_nil f.bits then false else all_bits (get_probes hash f) f.bits

unfoldable pub add_hashes : List ChangeHash → BloomFilter → BloomFilter
unfolding add_hash
add_hashes [] f = f
add_hashes (h ∷ hashes) f = add_hashes hashes (add_hash h f)

unfoldable pub from_hashes : List ChangeHash → BloomFilter
unfolding sized add_hashes
from_hashes hashes = add_hashes hashes (sized (length hashes % 2 ^ 32))

unfoldable pub to_bytes : BloomFilter → List ℕ
unfolding encode_uleb128
to_bytes f =
    let header =
      encode_uleb128 f.num_probes
        (encode_uleb128 f.num_bits_per_entry (encode_uleb128 f.num_entries [])) in
    if f.num_entries == 0 then [] else header ++ f.bits

abbrev read_filter : List ℕ → Option BloomFilter
read_filter input = do
  num_entries ← decode_uleb128 input
  let pos = num_entries.bytes_read
  bits_per_entry ← decode_uleb128 (drop pos input)
  let pos' = pos + bits_per_entry.bytes_read
  num_probes ← decode_uleb128 (drop pos' input)
  some (record {
    num_entries = num_entries.value % 2 ^ 32;
    num_bits_per_entry = bits_per_entry.value % 2 ^ 32;
    num_probes = num_probes.value % 2 ^ 32;
    bits = drop (pos' + num_probes.bytes_read) input;
  })

unfoldable pub from_bytes : List ℕ → Option BloomFilter
unfolding decode_uleb128
from_bytes input = if is_nil input then some empty_filter else read_filter input
