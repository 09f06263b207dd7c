-- ===== src/Encoding/Boolean/Reader.antt =====
-- What the calls of `next` on an encoding of counts return, run by run.
use Prim.Native.Nat.{bit_and, bit_or}
use automerge_cpp.Prelude.{
  ℕ, zero, suc, ◌+◌, ◌-◌, ◌%◌, ◌^◌, ◌≤◌, ◌<◌, ◌≡◌, refl, ap, sym, ◌∙◌, arith, if◌then◌else◌, leb,
  ◌==◌, ◌*◌, Option-cases, inl, inr, length, drop, length-append,
}
use automerge_cpp.Prelude.{Bool, true, false, not, Option, none, some, List, [], ◌∷◌, ◌++◌}
use automerge_cpp.Encoding.Leb128.{DecodeResult, encode_uleb128, decode_uleb128, decode_uleb_loop}
use automerge_cpp.Encoding.Leb128.Unsigned.{decode-encode_uleb128, length-encode_uleb128}
use automerge_cpp.Encoding.Boolean.{BooleanDecoder, start_run, find_run, take_one, next_of, next}
use automerge_cpp.Encoding.Boolean.Writer.{code}
use automerge_cpp.Prelude.{length-drop}

-- `fuel` calls of `next`, up to the first one that returns nothing.
unfoldable pub read : ℕ → BooleanDecoder → List Bool
unfolding next
read zero d = []
read (suc fuel) d =
    let rest = read fuel (next d).1 in elim (next d).0 [ none ↦ [] | some v ↦ v ∷ rest ]

-- The decoder in the middle of a column.
abbrev pub state : List ℕ → ℕ → Bool → ℕ → BooleanDecoder
state input pos b n = record { input = input; pos = pos; current_value = b; remaining = n }

at_end : (p : ℕ) (xs : List ℕ) → drop p xs ≡ [] → leb (length xs) p ≡ true
at_end p xs h = let e : length (drop p xs) ≡ 0 = ap length h in ground (arith, length-drop p xs)

before_end : (p : ℕ) (xs ys : List ℕ) → drop p xs ≡ ys → 1 ≤ length ys → p < length xs
before_end p xs ys h some_left =
    let e : length (drop p xs) ≡ length ys = ap length h in omega (arith, length-drop p xs)

-- A decoder of counts reads a byte at least.
decode_uleb_loop-bytes_read :
    (input : List ℕ) (value shift i : ℕ) (r : DecodeResult)
    → decode_uleb_loop input value shift i ≡ some r
    → i < r.bytes_read
unfolding decode_uleb_loop
decode_uleb_loop-bytes_read [] value shift i r h = cc
decode_uleb_loop-bytes_read (byte ∷ input) value shift i r h =
    let value' = bit_or value (bit_and byte 0x7f * 2 ^ shift % 2 ^ 64) in
    let rest : decode_uleb_loop input value' (shift + 7) (i + 1) ≡ some r → i + 1 < r.bytes_read =
      decode_uleb_loop-bytes_read input value' (shift + 7) (i + 1) r in
    ground (arith, rest)

decode_uleb128-bytes_read :
    (input : List ℕ) (r : DecodeResult) → decode_uleb128 input ≡ some r → 1 ≤ r.bytes_read
unfolding decode_uleb128
decode_uleb128-bytes_read input r h = omega (arith, decode_uleb_loop-bytes_read input 0 0 0 r h)

-- The loop of `next` has an answer as soon as its fuel is above the number of bytes that are left:
-- more fuel gives the same one.
pub find_run_enough :
    (f g : ℕ) (d : BooleanDecoder)
    → length d.input - d.pos < f
    → length d.input - d.pos < g
    → find_run f d ≡ find_run g d
unfolding find_run start_run
find_run_enough zero g d hf hg = absurd (omega arith)
find_run_enough (suc f) zero d hf hg = absurd (omega arith)
find_run_enough (suc f) (suc g) d hf hg =
    elim (Option-cases (decode_uleb128 (drop d.pos d.input))) [
      | inl e ↦ rw e refl
      | inr (r, e) ↦
          let inside : leb (length d.input) d.pos ≡ false → d.pos < length d.input =
            λ h. ground arith in
          let ih : leb (length d.input) d.pos ≡ false
              → find_run f (start_run r d) ≡ find_run g (start_run r d) =
            λ h.
              find_run_enough f g (start_run r d)
                (omega (arith, inside h, decode_uleb128-bytes_read _ r e))
                (omega (arith, inside h, decode_uleb128-bytes_read _ r e)) in
          rw e (ground (arith, ih))
    ]

find_run-in_run :
    (fuel : ℕ) (input : List ℕ) (pos : ℕ) (b : Bool) (n : ℕ)
    → find_run (suc fuel) (state input pos b (suc n)) ≡ (true, state input pos b (suc n))
unfolding find_run
find_run-in_run fuel input pos b n = ground arith

-- `next` in a run.
next-in_run :
    (input : List ℕ) (pos : ℕ) (b : Bool) (n : ℕ)
    → next (state input pos b (suc n)) ≡ (some b, state input pos (if n == 0 then not b else b) n)
unfolding next take_one
next-in_run input pos b n =
    ap next_of (find_run-in_run (length input) input pos b n)
    ∙ ap (λ (t : ℕ). (some b, state input pos (if t == 0 then not b else b) t)) (omega arith)

abbrev pub after_count : List ℕ → ℕ → Bool → ℕ → BooleanDecoder
after_count input pos b n = state input (pos + length (code n)) (if n == 0 then not b else b) n

code_left : (n : ℕ) → 1 ≤ length (code n)
code_left n = (length-encode_uleb128 n).0

some_left : (n : ℕ) (rest : List ℕ) → 1 ≤ length (code n ++ rest)
some_left n rest =
    omega (arith, length-append (encode_uleb128 n []) rest, (length-encode_uleb128 n).0)

find_run-at_run :
    (fuel : ℕ) (input : List ℕ) (pos : ℕ) (b : Bool) (n : ℕ) (rest : List ℕ)
    → drop pos input ≡ code n ++ rest
    → n < 2 ^ 64
    → find_run (suc fuel) (state input pos b 0) ≡ find_run fuel (after_count input pos b n)
unfolding find_run start_run
find_run-at_run fuel input pos b n rest h bound =
    let left = before_end pos input _ h (some_left n rest) in
    let more : leb (length input) pos ≡ false = ground arith in
    rw (more, h, decode-encode_uleb128 n rest bound) refl

-- `next` behind a run that is not the last one: it reads the count.
pub next-at_run :
    (input : List ℕ) (pos : ℕ) (b : Bool) (n : ℕ) (rest : List ℕ)
    → drop pos input ≡ code n ++ rest
    → n < 2 ^ 64
    → next (state input pos b 0) ≡ next (after_count input pos b n)
unfolding next
next-at_run input pos b n rest h bound = ap next_of (
    find_run-at_run (length input) input pos b n rest h bound
    ∙ find_run_enough (length input) (suc (length input)) (after_count input pos b n)
        (omega (arith, before_end pos input _ h (some_left n rest), code_left n)) (omega arith))

find_run-at_end :
    (fuel : ℕ) (input : List ℕ) (pos : ℕ) (b : Bool)
    → drop pos input ≡ []
    → find_run (suc fuel) (state input pos b 0) ≡ (false, state input pos b 0)
unfolding find_run
find_run-at_end fuel input pos b h = rw (at_end pos input h) refl

next-at_end :
    (input : List ℕ) (pos : ℕ) (b : Bool)
    → drop pos input ≡ []
    → next (state input pos b 0) ≡ (none, state input pos b 0)
unfolding next
next-at_end input pos b h = ap next_of (find_run-at_end (length input) input pos b h)

-- A run of values.
abbrev pub repeat : ℕ → Bool → List Bool
repeat zero b = []
repeat (suc n) b = b ∷ repeat n b

abbrev pub read_of : ℕ → Option Bool × BooleanDecoder → List Bool
read_of k p = let rest = read k p.1 in elim p.0 [ none ↦ [] | some v ↦ v ∷ rest ]

pub read-next :
    (k : ℕ) (d : BooleanDecoder) (p : Option Bool × BooleanDecoder)
    → next d ≡ p
    → read (suc k) d ≡ read_of k p
unfolding read
read-next k d p e = ap (read_of k) e

read-in_run :
    (n k : ℕ) (input : List ℕ) (pos : ℕ) (b : Bool)
    → read (suc n + k) (state input pos b (suc n))
      ≡ repeat (suc n) b ++ read k (state input pos (not b) 0)
read-in_run zero k input pos b =
    let out : 1 + k ≡ suc k = omega arith in
    ap (λ (t : ℕ). read t (state input pos b 1)) out
    ∙ read-next k (state input pos b 1) _ (next-in_run input pos b 0)
read-in_run (suc n) k input pos b =
    let out : suc (suc n) + k ≡ suc (suc n + k) = omega arith in
    let still : (suc n == 0) ≡ false = ground arith in
    ap (λ (t : ℕ). read t (state input pos b (suc (suc n)))) out
    ∙ read-next (suc n + k) (state input pos b (suc (suc n))) _ (next-in_run input pos b (suc n))
    ∙ rw still (ap (◌∷◌ b) (read-in_run n k input pos b))

-- A count that is read, and the values of its run.
pub read-run :
    (n k : ℕ) (input : List ℕ) (pos : ℕ) (b : Bool) (rest : List ℕ)
    → drop pos input ≡ code (suc n) ++ rest
    → suc n < 2 ^ 64
    → read (suc n + k) (state input pos b 0)
      ≡ repeat (suc n) b ++ read k (state input (pos + length (code (suc n))) (not b) 0)
read-run n k input pos b rest h bound =
    let out : suc n + k ≡ suc (n + k) = omega arith in
    let there : BooleanDecoder = state input (pos + length (code (suc n))) b (suc n) in
    let still : (suc n == 0) ≡ false = ground arith in
    ap (λ (t : ℕ). read t (state input pos b 0)) out
    ∙ read-next (n + k) (state input pos b 0) _ (next-at_run input pos b (suc n) rest h bound)
    ∙ rw still (sym (read-next (n + k) there _ refl))
    ∙ ap (λ (t : ℕ). read t there) (sym out)
    ∙ read-in_run n k input (pos + length (code (suc n))) b

pub read-at_end :
    (k : ℕ) (input : List ℕ) (pos : ℕ) (b : Bool)
    → drop pos input ≡ []
    → read k (state input pos b 0) ≡ []
unfolding read
read-at_end zero input pos b h = refl
read-at_end (suc k) input pos b h = read-next k (state input pos b 0) _ (next-at_end input pos b h)
