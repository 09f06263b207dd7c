-- ===== src/Encoding/Rle/Steps.antt =====
-- What calls of `next` of the run-length decoder answer.
use automerge_cpp.Prelude.{
  ℕ, zero, suc, ◌-◌, ◌^◌, ◌≤◌, ◌<◌, ◌≡◌, refl, sym, ap, ◌∙◌, subst, arith, leb, ltb, ◌==◌, length,
  replicate, length-append,
}
use automerge_cpp.Prelude.{true, false, Option, none, some, List, [], ◌∷◌, ◌++◌}
use automerge_cpp.Encoding.Leb128.{encode_uleb128, encode_sleb128}
use automerge_cpp.Encoding.Leb128.Signed.{encode_sleb128_nonempty}
use automerge_cpp.Encoding.Rle.{
  Codec, RleDecoder, next, read_control, start_chunk, start_nulls, negative, read_one,
}
use automerge_cpp.Storage.Deserializer.{Deserializer, skip}
use automerge_cpp.Storage.Reads.{IsAt, Reads-uleb128, Reads-sleb128, length-IsAt}

module _ {T : Type 0} (c : Codec T) where
  abbrev pub continue :
      (RleDecoder T → List (Option T)) → Option (Option T) × RleDecoder T → List (Option T)
  continue others (none, d) = []
  continue others (some x, d) = x ∷ others d

  -- The answers of `n` calls of `next`, up to the first that has none.
  unfoldable pub read : ℕ → RleDecoder T → List (Option T)
  unfolding next
  read zero d = []
  read (suc n) d = continue (read n) (next c d)

  abbrev pub state : Deserializer → Option T → ℕ → ℕ → ℕ → RleDecoder T
  state source v run_left literals_left nulls_left = record {
    source = source;
    run_value = v;
    run_remaining = run_left;
    literal_remaining = literals_left;
    null_remaining = nulls_left;
  }

  -- The calls of `next` answer `xs`, and lead from `d` to `e`.
  abbrev pub Yields : RleDecoder T → List (Option T) → RleDecoder T → Type 0
  Yields d [] e = d ≡ e
  Yields d (x ∷ xs) e = (d' : RleDecoder T) × (next c d ≡ (some x, d')) × Yields d' xs e

  pub Yields-append :
      (d e f : RleDecoder T) (xs ys : List (Option T))
      → Yields d xs e
      → Yields e ys f
      → Yields d (xs ++ ys) f
  Yields-append d e f [] ys h k = subst (λ (t : RleDecoder T). Yields t ys f) (sym h) k
  Yields-append d e f (x ∷ xs) ys (d', step, h) k = (d', step, Yields-append d' e f xs ys h k)

  pub suc-zero : (n : ℕ) → (suc n == 0) ≡ false
  suc-zero n = ground arith

  suc-pred : (n : ℕ) → suc n - 1 ≡ n
  suc-pred n = omega arith

  pub Yields-nulls :
      (source : Deserializer) (v : Option T) (n : ℕ)
      → Yields (state source v 0 0 n) (replicate n none) (state source v 0 0 0)
  unfolding next
  Yields-nulls source v zero = refl
  Yields-nulls source v (suc n) =
      (state source v 0 0 n, rw (suc-zero n, suc-pred n) refl, Yields-nulls source v n)

  pub Yields-run :
      (source : Deserializer) (v : T) (n : ℕ)
      → Yields (state source (some v) n 0 0) (replicate n (some v)) (state source (some v) 0 0 0)
  unfolding next
  Yields-run source v zero = refl
  Yields-run source v (suc n) =
      (state source (some v) n 0 0, rw (suc-zero n, suc-pred n) refl, Yields-run source v n)

  read_one-some :
      (f : T → RleDecoder T → RleDecoder T) (d : RleDecoder T) {v : T} {behind : Deserializer}
      → c.decode_value d.source ≡ some (v, behind)
      → read_one c f d ≡ (some (some v), f v (record d { source = behind }))
  read_one-some f d h = rw (read_one, h) refl

  pub next-literal :
      (source : Deserializer) (rv : Option T) (n : ℕ) {v : T} {behind : Deserializer}
      → c.decode_value source ≡ some (v, behind)
      → next c (state source rv 0 (suc n) 0) ≡ (some (some v), state behind rv 0 n 0)
  unfolding next
  next-literal source rv n {v} {behind} h = rw (suc-zero n) (
      read_one-some (λ w d. d) (state source rv 0 (suc n - 1) 0) h
      ∙ ap (λ (m : ℕ). (some (some v), state behind rv 0 m 0)) (suc-pred n))

  pub next-control :
      (source : Deserializer) (rv : Option T) (control : ℕ) (rest : List ℕ)
      → control < 2 ^ 64
      → IsAt source (encode_sleb128 control [] ++ rest)
      → next c (state source rv 0 0 0)
        ≡ start_chunk c control (state (skip (length (encode_sleb128 control [])) source) rv 0 0 0)
  unfolding next read_control
  next-control source rv control rest bound at =
      let more : leb (length source.input) source.pos ≡ false = ground (
        arith,
        length-IsAt source (encode_sleb128 control [] ++ rest) at,
        length-append (encode_sleb128 control []) rest,
        encode_sleb128_nonempty control,
      ) in
      rw (more, Reads-sleb128 control bound source rest at) refl

  pub start-nulls :
      (source : Deserializer) (rv : Option T) (n : ℕ) (rest : List ℕ)
      → suc n < 2 ^ 64
      → IsAt source (encode_uleb128 (suc n) [] ++ rest)
      → start_chunk c 0 (state source rv 0 0 0)
        ≡ (some none, state (skip (length (encode_uleb128 (suc n) [])) source) rv 0 0 n)
  unfolding start_chunk start_nulls
  start-nulls source rv n rest bound at =
      rw (Reads-uleb128 (suc n) bound source rest at, suc-zero n, suc-pred n) refl

  pub start-run :
      (source : Deserializer) (rv : Option T) (n : ℕ) {v : T} {behind : Deserializer}
      → suc n < 2 ^ 63
      → c.decode_value source ≡ some (v, behind)
      → start_chunk c (suc n) (state source rv 0 0 0) ≡ (some (some v), state behind (some v) n 0 0)
  unfolding start_chunk
  start-run source rv n bound h =
      let below : ltb (suc n) (2 ^ 63) ≡ true = ground arith in
      rw (suc-zero n, below, read_one, h, suc-pred n) refl

  pub start-literals :
      (source : Deserializer) (rv : Option T) (n : ℕ) {v : T} {behind : Deserializer}
      → suc n ≤ 2 ^ 63
      → c.decode_value source ≡ some (v, behind)
      → start_chunk c (negative (suc n)) (state source rv 0 0 0)
        ≡ (some (some v), state behind rv 0 n 0)
  unfolding start_chunk
  start-literals source rv n bound h =
      let not_zero : (negative (suc n) == 0) ≡ false = ground arith in
      let above : ltb (negative (suc n)) (2 ^ 63) ≡ false = ground arith in
      let left : negative (negative (suc n)) - 1 ≡ n = omega arith in
      rw (not_zero, above, read_one, h, left) refl
