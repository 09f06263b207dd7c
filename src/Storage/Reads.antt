-- ===== src/Storage/Reads.antt =====
-- Readers that read a value from its bytes, whatever follows them.
use automerge_cpp.Prelude.{
  ℕ, zero, suc, ◌+◌, ◌%◌, ◌^◌, ◌≤◌, ◌<◌, ◌≡◌, refl, ap, ◌∙◌, arith, length, drop, take, behind,
  get_elem?, length-append, length-drop, ltb,
}
use automerge_cpp.Prelude.{false, some, List, [], ◌∷◌, ◌++◌, append_assoc}
use automerge_cpp.Encoding.Leb128.{encode_uleb128, encode_sleb128}
use automerge_cpp.Encoding.Leb128.Unsigned.{decode-encode_uleb128}
use automerge_cpp.Encoding.Leb128.Signed.{decode-encode_sleb128}
use automerge_cpp.Storage.Deserializer.{
  Deserializer, Reader, ◌>>=◌, mapped, skip, read_u8, read_bytes, read_uleb128, read_sleb128,
}

-- What is left to read, within data whose length a `std::size_t` holds.
pub record IsAt (d : Deserializer) (bytes : List ℕ) : Type 0 where
  pub left : drop d.pos d.input ≡ bytes
  pub inside : d.pos ≤ length d.input
  pub small : length d.input < 2 ^ 64

pub length-IsAt :
    (d : Deserializer) (bytes : List ℕ) → IsAt d bytes → length d.input ≡ d.pos + length bytes
length-IsAt d bytes at = omega (arith, at.inside, length-drop d.pos d.input, ap length at.left)

pub skip-IsAt :
    (d : Deserializer) (code rest : List ℕ)
    → IsAt d (code ++ rest)
    → IsAt (skip (length code) d) rest
skip-IsAt d code rest at = record {
  left = behind d.input d.pos code rest at.left;
  inside = omega (arith, length-IsAt d (code ++ rest) at, length-append code rest);
  small = at.small;
}

-- A reader reads a value from its bytes, whatever follows them.
abbrev pub Reads : {A : Type 0} → Reader A → List ℕ → A → Type 0
Reads r code a =
    (d : Deserializer) (rest : List ℕ)
    → IsAt d (code ++ rest)
    → r d ≡ some (a, skip (length code) d)

pub skip-skip :
    (d : Deserializer) (c e : List ℕ)
    → skip (length e) (skip (length c) d) ≡ skip (length (c ++ e)) d
skip-skip d c e = ap (λ (n : ℕ). record d { pos = n }) (omega (arith, length-append c e))

pub Reads-then :
    {A B : Type 0} (r : Reader A) (f : A → Reader B) (c e : List ℕ) {a : A} {b : B}
    → Reads r c a
    → Reads (f a) e b
    → Reads (r >>= f) (c ++ e) b
Reads-then r f c e {a} {b} first second d rest at =
    let here : IsAt d (c ++ (e ++ rest)) = record {
      left = at.left ∙ append_assoc c e rest;
      inside = at.inside;
      small = at.small;
    } in
    rw
      (
        ◌>>=◌,
        first d (e ++ rest) here,
        second (skip (length c) d) rest (skip-IsAt d c (e ++ rest) here),
      )
      (ap (λ (t : Deserializer). some (b, t)) (skip-skip d c e))

pub Reads-mapped :
    {A B : Type 0} (f : A → B) (r : Reader A) (c : List ℕ) {a : A}
    → Reads r c a
    → Reads (mapped f r) c (f a)
Reads-mapped f r c first d rest at = rw (mapped, ◌>>=◌, first d rest at) refl

pub Reads-u8 : (v : ℕ) → Reads read_u8 (v ∷ []) v
unfolding read_u8
Reads-u8 v d rest at = rw (read_u8, get_elem-drop d.pos d.input rest at.left) refl
  where
    get_elem-drop : (n : ℕ) (xs rest : List ℕ) → drop n xs ≡ v ∷ rest → get_elem? xs n ≡ some v
    get_elem-drop zero [] rest h = cc
    get_elem-drop zero (x ∷ xs) rest h = cc
    get_elem-drop (suc n) [] rest h = cc
    get_elem-drop (suc n) (x ∷ xs) rest h = get_elem-drop n xs rest h

pub Reads-uleb128 : (v : ℕ) → v < 2 ^ 64 → Reads read_uleb128 (encode_uleb128 v []) v
unfolding read_uleb128
Reads-uleb128 v bound d rest at = rw (at.left, decode-encode_uleb128 v rest bound) refl

pub Reads-sleb128 : (v : ℕ) → v < 2 ^ 64 → Reads read_sleb128 (encode_sleb128 v []) v
unfolding read_sleb128
Reads-sleb128 v bound d rest at = rw (at.left, decode-encode_sleb128 v rest bound) refl

take-append : (xs ys : List ℕ) → take (length xs) (xs ++ ys) ≡ xs
take-append [] ys = refl
take-append (x ∷ xs) ys = ap (◌∷◌ x) (take-append xs ys)

-- The bytes at a place end within the data, and are what is taken there.
pub bytes-IsAt :
    (d : Deserializer) (bytes rest : List ℕ)
    → IsAt d (bytes ++ rest)
    → ((d.pos + length bytes) % 2 ^ 64 ≡ d.pos + length bytes)
      × (ltb (length d.input) (d.pos + length bytes) ≡ false)
      × (take (length bytes) (drop d.pos d.input) ≡ bytes)
bytes-IsAt d bytes rest at =
    let total = length-IsAt d (bytes ++ rest) at in
    (
      omega (arith, total, at.small, length-append bytes rest),
      ground (arith, total, length-append bytes rest),
      ap (take (length bytes)) at.left ∙ take-append bytes rest,
    )

pub Reads-bytes : (bytes : List ℕ) → Reads (read_bytes (length bytes)) bytes bytes
unfolding read_bytes
Reads-bytes bytes d rest at =
    let (ends, room, taken) = bytes-IsAt d bytes rest at in rw (ends, room, taken) refl

pub take-all : (n : ℕ) (xs : List ℕ) → length xs ≤ n → take n xs ≡ xs
take-all zero [] h = refl
take-all zero (x ∷ xs) h = absurd (omega arith)
take-all (suc n) [] h = refl
take-all (suc n) (x ∷ xs) h = ap (◌∷◌ x) (take-all n xs (omega arith))
