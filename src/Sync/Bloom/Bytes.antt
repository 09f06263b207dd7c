-- ===== src/Sync/Bloom/Bytes.antt =====
-- The bytes of a filter.
use automerge_cpp.Prelude.{
  ℕ, ◌+◌, ◌^◌, ◌<◌, ◌≤◌, ◌≡◌, refl, ap, ◌∙◌, arith, ◌==◌, length, drop, behind, drop-append,
  length-append,
}
use automerge_cpp.Prelude.{false, some, List, [], ◌∷◌, ◌++◌, append_assoc}
use automerge_cpp.Encoding.Leb128.{encode_uleb128, decode_uleb128}
use automerge_cpp.Encoding.Leb128.Unsigned.{
  decode-encode_uleb128, encode_uleb128-behind, length-encode_uleb128,
}
use automerge_cpp.Sync.Bloom.{BloomFilter, to_bytes, from_bytes, read_filter, is_nil}

-- A number that stands at a position is read, and what follows it comes next.
decode-at :
    (input : List ℕ) (pos value : ℕ) (rest : List ℕ)
    → drop pos input ≡ encode_uleb128 value [] ++ rest
    → value < 2 ^ 64
    → decode_uleb128 (drop pos input)
      ≡ some (record { value = value; bytes_read = length (encode_uleb128 value []) })
decode-at input pos value rest h bound =
    ap decode_uleb128 h ∙ decode-encode_uleb128 value rest bound

abbrev code : ℕ → List ℕ
code v = encode_uleb128 v []

module _ (n b p : ℕ) (bits : List ℕ) (hn : n < 2 ^ 32) (hb : b < 2 ^ 32) (hp : p < 2 ^ 32) where
  written : List ℕ
  written = code n ++ (code b ++ (code p ++ bits))

  read-written :
      read_filter written
      ≡ some (record { num_entries = n; num_bits_per_entry = b; num_probes = p; bits = bits })
  unfolding written
  read-written =
      let at_b : drop (length (code n)) written ≡ code b ++ (code p ++ bits) =
        drop-append (code n) (code b ++ (code p ++ bits)) in
      let at_p : drop (length (code n) + length (code b)) written ≡ code p ++ bits =
        behind written (length (code n)) (code b) (code p ++ bits) at_b in
      let at_bits : drop (length (code n) + length (code b) + length (code p)) written ≡ bits =
        behind written (length (code n) + length (code b)) (code p) bits at_p in
      rw
        (
          decode-encode_uleb128 n (code b ++ (code p ++ bits)) (omega arith),
          decode-at written (length (code n)) b (code p ++ bits) at_b (omega arith),
          decode-at written (length (code n) + length (code b)) p bits at_p (omega arith),
          at_bits,
        )
        (ground arith)

  header-written : encode_uleb128 p (encode_uleb128 b (encode_uleb128 n [])) ++ bits ≡ written
  unfolding written
  header-written =
      ap (λ (t : List ℕ). t ++ bits)
        (encode_uleb128-behind p (encode_uleb128 b (code n))
          ∙ ap (λ (t : List ℕ). t ++ code p) (encode_uleb128-behind b (code n)))
      ∙ append_assoc (code n ++ code b) (code p) bits
      ∙ append_assoc (code n) (code b) (code p ++ bits)

  written_nonempty : is_nil written ≡ false
  unfolding written
  written_nonempty = nonempty written (
      omega
        (arith, length-append (code n) (code b ++ (code p ++ bits)), (length-encode_uleb128 n).0))
    where
      nonempty : (xs : List ℕ) → 1 ≤ length xs → is_nil xs ≡ false
      nonempty [] h = absurd (omega arith)
      nonempty (x ∷ xs) h = refl

-- A filter with an entry is read back from its bytes.
pub from_bytes-to_bytes :
    (f : BloomFilter)
    → 0 < f.num_entries
    → f.num_entries < 2 ^ 32
    → f.num_bits_per_entry < 2 ^ 32
    → f.num_probes < 2 ^ 32
    → from_bytes (to_bytes f) ≡ some f
unfolding from_bytes to_bytes
from_bytes-to_bytes f some_entry hn hb hp =
    let n = f.num_entries in
    let b = f.num_bits_per_entry in
    let p = f.num_probes in
    let not_empty : (n == 0) ≡ false = ground arith in
    rw not_empty (
      rw (header-written n b p f.bits hn hb hp, written_nonempty n b p f.bits hn hb hp)
        (read-written n b p f.bits hn hb hp))
