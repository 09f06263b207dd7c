-- ===== src/Crypto/Sha256.antt =====
-- src/crypto/sha256.hpp. A `uint32_t` is a number below 2 ^ 32; an operation that may exceed it
-- keeps its wrap-around, a sum of several words the one of the whole sum. The stack and the heap buffer hold the same bytes, and are one list here.
use Prim.Native.Nat.{bit_and, bit_or, bit_xor}
use automerge_cpp.Prelude.{
  ℕ, zero, suc, ◌+◌, ◌-◌, ◌*◌, ◌/◌, ◌%◌, ◌^◌, ◌<◌, ◌≡◌, refl, arith, length, get_or, drop, take,
  All,
}
use automerge_cpp.Prelude.{List, [], ◌∷◌, ◌++◌, replicate, length-append, length-replicate}

-- The constants of the 64 rounds.
abbrev k : List ℕ
k =
    0x428a2f98 ∷ 0x71374491 ∷ 0xb5c0fbcf ∷ 0xe9b5dba5 ∷ 0x3956c25b ∷ 0x59f111f1 ∷ 0x923f82a4
    ∷ 0xab1c5ed5 ∷ 0xd807aa98 ∷ 0x12835b01 ∷ 0x243185be ∷ 0x550c7dc3 ∷ 0x72be5d74 ∷ 0x80deb1fe
    ∷ 0x9bdc06a7 ∷ 0xc19bf174 ∷ 0xe49b69c1 ∷ 0xefbe4786 ∷ 0x0fc19dc6 ∷ 0x240ca1cc ∷ 0x2de92c6f
    ∷ 0x4a7484aa ∷ 0x5cb0a9dc ∷ 0x76f988da ∷ 0x983e5152 ∷ 0xa831c66d ∷ 0xb00327c8 ∷ 0xbf597fc7
    ∷ 0xc6e00bf3 ∷ 0xd5a79147 ∷ 0x06ca6351 ∷ 0x14292967 ∷ 0x27b70a85 ∷ 0x2e1b2138 ∷ 0x4d2c6dfc
    ∷ 0x53380d13 ∷ 0x650a7354 ∷ 0x766a0abb ∷ 0x81c2c92e ∷ 0x92722c85 ∷ 0xa2bfe8a1 ∷ 0xa81a664b
    ∷ 0xc24b8b70 ∷ 0xc76c51a3 ∷ 0xd192e819 ∷ 0xd6990624 ∷ 0xf40e3585 ∷ 0x106aa070 ∷ 0x19a4c116
    ∷ 0x1e376c08 ∷ 0x2748774c ∷ 0x34b0bcb5 ∷ 0x391c0cb3 ∷ 0x4ed8aa4a ∷ 0x5b9cca4f ∷ 0x682e6ff3
    ∷ 0x748f82ee ∷ 0x78a5636f ∷ 0x84c87814 ∷ 0x8cc70208 ∷ 0x90befffa ∷ 0xa4506ceb ∷ 0xbef9a3f7
    ∷ 0xc67178f2 ∷ []

unfoldable rotr : ℕ → ℕ → ℕ
rotr x n = bit_or (x / 2 ^ n) (x * 2 ^ (32 - n) % 2 ^ 32)

-- `~x`
unfoldable not_u32 : ℕ → ℕ
not_u32 x = 2 ^ 32 - 1 - x

unfoldable ch : ℕ → ℕ → ℕ → ℕ
unfolding not_u32
ch x y z = bit_xor (bit_and x y) (bit_and (not_u32 x) z)

unfoldable maj : ℕ → ℕ → ℕ → ℕ
maj x y z = bit_xor (bit_xor (bit_and x y) (bit_and x z)) (bit_and y z)

unfoldable sigma0 : ℕ → ℕ
unfolding rotr
sigma0 x = bit_xor (bit_xor (rotr x 2) (rotr x 13)) (rotr x 22)

unfoldable sigma1 : ℕ → ℕ
unfolding rotr
sigma1 x = bit_xor (bit_xor (rotr x 6) (rotr x 11)) (rotr x 25)

unfoldable gamma0 : ℕ → ℕ
unfolding rotr
gamma0 x = bit_xor (bit_xor (rotr x 7) (rotr x 18)) (x / 2 ^ 3)

unfoldable gamma1 : ℕ → ℕ
unfolding rotr
gamma1 x = bit_xor (bit_xor (rotr x 17) (rotr x 19)) (x / 2 ^ 10)

unfoldable read_be32 : List ℕ → ℕ
read_be32 p =
    bit_or (bit_or (bit_or (get_or p 0 0 * 2 ^ 24) (get_or p 1 0 * 2 ^ 16)) (get_or p 2 0 * 2 ^ 8))
      (get_or p 3 0)

unfoldable write_be32 : ℕ → List ℕ
write_be32 v = v / 2 ^ 24 % 256 ∷ v / 2 ^ 16 % 256 ∷ v / 2 ^ 8 % 256 ∷ v % 256 ∷ []

unfoldable write_be64 : ℕ → List ℕ
write_be64 v =
    v / 2 ^ 56 % 256
    ∷ v / 2 ^ 48 % 256
    ∷ v / 2 ^ 40 % 256
    ∷ v / 2 ^ 32 % 256
    ∷ v / 2 ^ 24 % 256
    ∷ v / 2 ^ 16 % 256
    ∷ v / 2 ^ 8 % 256
    ∷ v % 256
    ∷ []

-- The words a, b, c, d, e, f, g and hh; the hash value h[0] to h[7] is one of these too.
record Words : Type 0 where
  a : ℕ
  b : ℕ
  c : ℕ
  d : ℕ
  e : ℕ
  f : ℕ
  g : ℕ
  hh : ℕ

abbrev initial_hash : Words
initial_hash = record {
  a = 0x6a09e667;
  b = 0xbb67ae85;
  c = 0x3c6ef372;
  d = 0xa54ff53a;
  e = 0x510e527f;
  f = 0x9b05688c;
  g = 0x1f83d9ab;
  hh = 0x5be0cd19;
}

unfoldable padded_len : ℕ → ℕ
padded_len msg_len = (msg_len + 1 + 8 + 63) / 64 * 64

-- The message, 0x80, zeros, and the length in bits.
unfoldable padded : List ℕ → List ℕ
unfolding padded_len write_be64
padded input =
    input
    ++ (0x80
        ∷ (replicate (padded_len (length input) - length input - 9) 0
            ++ write_be64 (length input * 8 % 2 ^ 64)))

-- The first 16 words of the schedule.
unfoldable read_words : ℕ → List ℕ → List ℕ
unfolding read_be32
read_words zero bp = []
read_words (suc n) bp = read_be32 bp ∷ read_words n (drop 4 bp)

-- The others: `i` is the index of the next one, the length of `w`.
unfoldable extend : ℕ → ℕ → List ℕ → List ℕ
unfolding gamma0 gamma1
extend zero i w = w
extend (suc n) i w = extend n (i + 1) (
    w
    ++ ((gamma1 (get_or w (i - 2) 0)
            + get_or w (i - 7) 0
            + gamma0 (get_or w (i - 15) 0)
            + get_or w (i - 16) 0)
          % 2 ^ 32
        ∷ []))

unfoldable round : ℕ → ℕ → Words → Words
unfolding sigma0 sigma1 ch maj
round ki wi v =
    let t1 = (v.hh + sigma1 v.e + ch v.e v.f v.g + ki + wi) % 2 ^ 32 in
    let t2 = (sigma0 v.a + maj v.a v.b v.c) % 2 ^ 32 in
    record {
      a = (t1 + t2) % 2 ^ 32;
      b = v.a;
      c = v.b;
      d = v.c;
      e = (v.d + t1) % 2 ^ 32;
      f = v.e;
      g = v.f;
      hh = v.g;
    }

unfoldable rounds : List ℕ → List ℕ → Words → Words
unfolding round
rounds (ki ∷ ks) (wi ∷ ws) v = rounds ks ws (round ki wi v)
rounds _ _ v = v

unfoldable add_words : Words → Words → Words
add_words h v = record {
  a = (h.a + v.a) % 2 ^ 32;
  b = (h.b + v.b) % 2 ^ 32;
  c = (h.c + v.c) % 2 ^ 32;
  d = (h.d + v.d) % 2 ^ 32;
  e = (h.e + v.e) % 2 ^ 32;
  f = (h.f + v.f) % 2 ^ 32;
  g = (h.g + v.g) % 2 ^ 32;
  hh = (h.hh + v.hh) % 2 ^ 32;
}

unfoldable block_step : List ℕ → Words → Words
unfolding read_words extend rounds add_words
block_step bp h = add_words h (rounds k (extend 48 16 (read_words 16 bp)) h)

-- The loop over the blocks of 64 bytes.
unfoldable blocks : ℕ → List ℕ → Words → Words
unfolding block_step
blocks zero p h = h
blocks (suc n) p h = blocks n (drop 64 p) (block_step (take 64 p) h)

unfoldable digest : Words → List ℕ
unfolding write_be32
digest h =
    write_be32 h.a
    ++ (write_be32 h.b
        ++ (write_be32 h.c
            ++ (write_be32 h.d
                ++ (write_be32 h.e ++ (write_be32 h.f ++ (write_be32 h.g ++ write_be32 h.hh))))))

unfoldable pub sha256 : List ℕ → List ℕ
unfolding padded padded_len blocks digest
sha256 input = digest (blocks (padded_len (length input) / 64) (padded input) initial_hash)

abbrev pub Byte : ℕ → Type 0
Byte b = b < 256

-- The padded message has the length that is computed for it, a number of whole blocks.
length-padded : (input : List ℕ) → length (padded input) ≡ padded_len (length input)
unfolding padded padded_len write_be64
length-padded input = omega (
  arith,
  length-append input (
      0x80
      ∷ (replicate (padded_len (length input) - length input - 9) 0
          ++ write_be64 (length input * 8 % 2 ^ 64))),
  length-append (replicate (padded_len (length input) - length input - 9) 0)
      (write_be64 (length input * 8 % 2 ^ 64)),
  length-replicate {A = ℕ} (padded_len (length input) - length input - 9) 0,
)

digest-bytes : (h : Words) → All Byte (digest h)
unfolding digest
digest-bytes h = omega arith

-- A digest is 32 bytes.
pub sha256-bytes : (input : List ℕ) → (length (sha256 input) ≡ 32) × All Byte (sha256 input)
unfolding sha256
sha256-bytes input =
    (refl, digest-bytes (blocks (padded_len (length input) / 64) (padded input) initial_hash))
