-- ===== src/Encoding/Rle/Decoding.antt =====
-- What the decoder of run-length columns reads from runs, literals and nulls.
use automerge_cpp.Prelude.{
  ℕ, zero, suc, ◌^◌, ◌≤◌, ◌<◌, ◌≡◌, refl, ap, ◌∙◌, subst, arith, leb, length, All, replicate, map,
}
use automerge_cpp.Prelude.{true, Option, none, some, List, [], ◌∷◌, ◌++◌, append_assoc}
use automerge_cpp.Encoding.Leb128.{encode_uleb128, encode_sleb128}
use automerge_cpp.Encoding.Rle.{Codec, RleDecoder, new_decoder, next, read_control, negative}
use automerge_cpp.Storage.Deserializer.{Deserializer, skip}
use automerge_cpp.Storage.Reads.{IsAt, Reads, skip-IsAt, length-IsAt, skip-skip}
use automerge_cpp.Encoding.Rle.Chunks.{
  Chunk, run, literals, nulls, chunk_values, column_values, codes, chunk_bytes, column_bytes,
}
use automerge_cpp.Encoding.Rle.Steps.{
  state, Yields, Yields-append, Yields-nulls, Yields-run, next-literal, next-control, start-nulls,
  start-run, start-literals, read,
}

module _ {T : Type 0} (c : Codec T) where
  module _ (Good : T → Type 0)
      (laws : (v : T) → Good v → Reads c.decode_value (c.encode_value v []) v) where
    Yields-literals :
        (source : Deserializer) (rv : Option T) (vs : List T) (rest : List ℕ)
        → All Good vs
        → IsAt source (codes c vs ++ rest)
        → Yields c
            (state c source rv 0 (length vs) 0)
            (map some vs)
            (state c (skip (length (codes c vs)) source) rv 0 0 0)
    Yields-literals source rv [] rest good at =
        ap (λ (n : ℕ). state c (record source { pos = n }) rv 0 0 0) (omega arith)
    Yields-literals source rv (v ∷ vs) rest good at =
        let code = c.encode_value v [] in
        let here : IsAt source (code ++ (codes c vs ++ rest)) = record {
          left = at.left ∙ append_assoc code (codes c vs) rest;
          inside = at.inside;
          small = at.small;
        } in
        let behind = skip (length code) source in
        (
          state c behind rv 0 (length vs) 0,
          next-literal c source rv (length vs) (laws v good.0 source (codes c vs ++ rest) here),
          subst
              (λ (t : Deserializer).
                Yields c (state c behind rv 0 (length vs) 0) (map some vs) (state c t rv 0 0 0))
              (skip-skip source code (codes c vs))
              (Yields-literals behind rv vs rest good.1
                (skip-IsAt source code (codes c vs ++ rest) here)),
        )

    -- The counts have the sizes that they are written in, and the values are ones that are read back.
    abbrev pub IsChunk : Chunk T → Type 0
    IsChunk (run zero v) = ⊥
    IsChunk (run (suc n) v) = (suc n < 2 ^ 63) × Good v
    IsChunk (literals v vs) = (suc (length vs) ≤ 2 ^ 63) × All Good (v ∷ vs)
    IsChunk (nulls zero) = ⊥
    IsChunk (nulls (suc n)) = suc n < 2 ^ 64

    module _ (source : Deserializer) (rv : Option T) (rest : List ℕ) where
      again :
          (front code : List ℕ)
          → IsAt source ((front ++ code) ++ rest)
          → IsAt source (front ++ (code ++ rest))
      again front code at = record {
        left = at.left ∙ append_assoc front code rest;
        inside = at.inside;
        small = at.small;
      }

      moved :
          (front code : List ℕ) (v : Option T) (d : RleDecoder T) (xs : List (Option T))
          → Yields c d xs (state c (skip (length code) (skip (length front) source)) v 0 0 0)
          → Yields c d xs (state c (skip (length (front ++ code)) source) v 0 0 0)
      moved front code v d xs h =
          subst (λ (t : Deserializer). Yields c d xs (state c t v 0 0 0))
            (skip-skip source front code) h

      abbrev Behind : Chunk T → Type 0
      Behind k =
          (v : Option T) × Yields c (state c source rv 0 0 0) (chunk_values k)
            (state c (skip (length (chunk_bytes c k)) source) v 0 0 0)

      Behind-nulls :
          (n : ℕ)
          → IsChunk (nulls (suc n))
          → IsAt source (chunk_bytes c (nulls (suc n)) ++ rest)
          → Behind (nulls (suc n))
      Behind-nulls n is at =
          let front = encode_sleb128 0 [] in
          let code = encode_uleb128 (suc n) [] in
          let here = again front code at in
          let behind = skip (length front) source in
          let after = skip (length code) behind in
          (
            rv,
            (
              state c after rv 0 0 n,
              next-control c source rv 0 (code ++ rest) (omega arith) here
                  ∙ start-nulls c behind rv n rest is (skip-IsAt source front (code ++ rest) here),
              moved front code rv (state c after rv 0 0 n) (replicate n none)
                  (Yields-nulls c after rv n),
            ),
          )

      Behind-run :
          (n : ℕ) (v : T)
          → IsChunk (run (suc n) v)
          → IsAt source (chunk_bytes c (run (suc n) v) ++ rest)
          → Behind (run (suc n) v)
      Behind-run n v is at =
          let front = encode_sleb128 (suc n) [] in
          let code = c.encode_value v [] in
          let here = again front code at in
          let behind = skip (length front) source in
          let after = skip (length code) behind in
          let value = laws v is.1 behind rest (skip-IsAt source front (code ++ rest) here) in
          (
            some v,
            (
              state c after (some v) n 0 0,
              next-control c source rv (suc n) (code ++ rest) (omega (arith, is.0)) here
                  ∙ start-run c behind rv n is.0 value,
              moved front code (some v) (state c after (some v) n 0 0) (replicate n (some v))
                  (Yields-run c after v n),
            ),
          )

      Behind-literals :
          (v : T) (vs : List T)
          → IsChunk (literals v vs)
          → IsAt source (chunk_bytes c (literals v vs) ++ rest)
          → Behind (literals v vs)
      Behind-literals v vs is at =
          let front = encode_sleb128 (negative (suc (length vs))) [] in
          let code = c.encode_value v [] in
          let here = again front (codes c (v ∷ vs)) at in
          let behind = skip (length front) source in
          let first : IsAt behind (code ++ (codes c vs ++ rest)) =
            let there = skip-IsAt source front (codes c (v ∷ vs) ++ rest) here in
            record {
              left = there.left ∙ append_assoc code (codes c vs) rest;
              inside = there.inside;
              small = there.small;
            } in
          let after = skip (length code) behind in
          (
            rv,
            (
              state c after rv 0 (length vs) 0,
              next-control c source rv (negative (suc (length vs))) (codes c (v ∷ vs) ++ rest)
                    (omega arith) here
                  ∙ start-literals c behind rv (length vs) is.0
                      (laws v (is.1).0 behind (codes c vs ++ rest) first),
              moved front (codes c (v ∷ vs)) rv (state c after rv 0 (length vs) 0) (map some vs) (
                  subst
                    (λ (t : Deserializer).
                      Yields c (state c after rv 0 (length vs) 0) (map some vs)
                        (state c t rv 0 0 0))
                    (skip-skip behind code (codes c vs))
                    (Yields-literals after rv vs rest (is.1).1
                      (skip-IsAt behind code (codes c vs ++ rest) first))),
            ),
          )

      -- The bytes of a chunk are read as its values, and the decoder stands behind them.
      Behind-chunk : (k : Chunk T) → IsChunk k → IsAt source (chunk_bytes c k ++ rest) → Behind k
      Behind-chunk (run zero v) is at = absurd is
      Behind-chunk (run (suc n) v) is at = Behind-run n v is at
      Behind-chunk (literals v vs) is at = Behind-literals v vs is at
      Behind-chunk (nulls zero) is at = absurd is
      Behind-chunk (nulls (suc n)) is at = Behind-nulls n is at

    -- The bytes of some chunks are read as their values, and the decoder stands at the end.
    Yields-column :
        (ks : List (Chunk T)) (source : Deserializer) (rv : Option T)
        → All IsChunk ks
        → IsAt source (column_bytes c ks)
        → (v : Option T) × (e : Deserializer) × IsAt e []
          × Yields c (state c source rv 0 0 0) (column_values ks) (state c e v 0 0 0)
    unfolding column_bytes column_values
    Yields-column [] source rv is at = (rv, source, at, refl)
    Yields-column (k ∷ ks) source rv is at =
        let (v, first) = Behind-chunk source rv (column_bytes c ks) k is.0 at in
        let behind = skip (length (chunk_bytes c k)) source in
        let (w, e, ends, others) =
          Yields-column ks behind v is.1
            (skip-IsAt source (chunk_bytes c k) (column_bytes c ks) at) in
        (
          w,
          e,
          ends,
          Yields-append c (state c source rv 0 0 0) (state c behind v 0 0 0) (state c e w 0 0 0)
              (chunk_values k) (column_values ks) first others,
        )

    next-end :
        (e : Deserializer) (v : Option T)
        → IsAt e []
        → next c (state c e v 0 0 0) ≡ (none, state c e v 0 0 0)
    unfolding next read_control
    next-end e v at =
        let over : leb (length e.input) e.pos ≡ true = ground (arith, length-IsAt e [] at) in
        rw over refl

    read-Yields :
        (n : ℕ) (xs : List (Option T)) (d e : RleDecoder T)
        → length xs < n
        → Yields c d xs e
        → next c e ≡ (none, e)
        → read c n d ≡ xs
    unfolding read
    read-Yields zero xs d e h y stop = absurd (omega arith)
    read-Yields (suc n) [] d e h y stop = rw (ap (next c) y ∙ stop) refl
    read-Yields (suc n) (x ∷ xs) d e h (d', step, y) stop =
        rw step (ap (◌∷◌ x) (read-Yields n xs d' e (omega arith) y stop))

    -- The decoder reads the bytes of some chunks, fewer than 2 ^ 64, with counts in the range of
    -- their encodings and values that the codec reads back, as the values of the chunks in their
    -- order and nothing behind them, in more calls than there are values.
    pub read-column :
        (ks : List (Chunk T)) (n : ℕ)
        → All IsChunk ks
        → length (column_bytes c ks) < 2 ^ 64
        → length (column_values ks) < n
        → read c n (new_decoder (column_bytes c ks)) ≡ column_values ks
    read-column ks n is small enough =
        let source : Deserializer = record { input = column_bytes c ks; pos = 0 } in
        let at : IsAt source (column_bytes c ks) = record {
          left = refl;
          inside = omega arith;
          small = small;
        } in
        let (v, e, ends, y) = Yields-column ks source none is at in
        read-Yields n (column_values ks) (state c source none 0 0 0) (state c e v 0 0 0) enough y
          (next-end e v ends)
