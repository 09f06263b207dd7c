-- ===== src/Encoding/Boolean/RoundTrip.antt =====
-- The boolean column: what the encoder writes for a list of values, the decoder reads back.
use automerge_cpp.Prelude.{
  ℕ, zero, suc, ◌+◌, ◌^◌, ◌<◌, ◌≡◌, refl, ap, sym, ◌∙◌, arith, inl, inr, length, drop, Bool-cases,
}
use automerge_cpp.Prelude.{Bool, true, false, not, List, [], ◌∷◌, ◌++◌}
use automerge_cpp.Encoding.Boolean.{BooleanDecoder, same_value, new_encoder, new_decoder}
use automerge_cpp.Encoding.Boolean.Writer.{
  encode, code, runs, finish-append_all, same_value-eq, same_value-not, runs-last, runs-same,
  runs-other, runs-nothing,
}
use automerge_cpp.Prelude.{behind}
use automerge_cpp.Encoding.Boolean.Reader.{
  read, state, next-at_run, repeat, read-next, read-run, read-at_end,
}

repeat-more : (n : ℕ) (b : Bool) (vs : List Bool) → repeat (suc n) b ++ vs ≡ repeat n b ++ (b ∷ vs)
repeat-more zero b vs = refl
repeat-more (suc n) b vs = ap (◌∷◌ b) (repeat-more n b vs)

-- Enough calls read what was written, and nothing more.
read-runs :
    (vs : List Bool) (n k : ℕ) (input : List ℕ) (pos : ℕ) (b : Bool)
    → drop pos input ≡ runs b (suc n) vs
    → suc n + length vs < 2 ^ 64
    → read (suc n + (length vs + k)) (state input pos b 0) ≡ repeat (suc n) b ++ vs
read-runs [] n k input pos b h bound =
    let written = h ∙ runs-last b n in
    read-run n (0 + k) input pos b [] written (omega arith)
    ∙ ap (◌++◌ (repeat (suc n) b))
        (read-at_end (0 + k) input _ (not b) (behind input pos (code (suc n)) [] written))
read-runs (v ∷ vs) n k input pos b h bound = elim (Bool-cases (same_value v b)) [
  | inl same ↦
      let more : suc n + (suc (length vs) + k) ≡ suc (suc n) + (length vs + k) = omega arith in
      ap (λ (t : ℕ). read t (state input pos b 0)) more
      ∙ read-runs vs (suc n) k input pos b (h ∙ runs-same v b (suc n) vs same) (omega arith)
      ∙ repeat-more (suc n) b vs
      ∙ ap (λ (t : Bool). repeat (suc n) b ++ (t ∷ vs)) (sym (same_value-eq v b same))
  | inr other ↦
      let written = h ∙ runs-other v b (suc n) vs other in
      let pos' : ℕ = pos + length (code (suc n)) in
      let one : suc (length vs) + k ≡ 1 + (length vs + k) = omega arith in
      read-run n (suc (length vs) + k) input pos b (runs v 1 vs) written (omega arith)
      ∙ ap (◌++◌ (repeat (suc n) b)) (
          ap (λ (t : Bool). read (suc (length vs) + k) (state input pos' t 0))
            (same_value-not v b other)
          ∙ ap (λ (t : ℕ). read t (state input pos' v 0)) one
          ∙ read-runs vs 0 k input pos' v (behind input pos (code (suc n)) (runs v 1 vs) written)
              (omega arith))
]

-- The counts of a column, from its start: false is counted first, perhaps 0 times.
read-column :
    (vs : List Bool) (k : ℕ) (input : List ℕ)
    → input ≡ runs false 0 vs
    → length vs < 2 ^ 64
    → read (length vs + k) (new_decoder input) ≡ vs
unfolding same_value
read-column [] k input h bound = read-at_end (0 + k) input 0 false (h ∙ runs-nothing)
read-column (false ∷ vs) k input h bound =
    let one : suc (length vs) + k ≡ 1 + (length vs + k) = omega arith in
    ap (λ (t : ℕ). read t (new_decoder input)) one
    ∙ read-runs vs 0 k input 0 false (h ∙ runs-same false false 0 vs refl) (omega arith)
read-column (true ∷ vs) k input h bound =
    let out : suc (length vs) + k ≡ suc (length vs + k) = omega arith in
    let one : suc (length vs + k) ≡ 1 + (length vs + k) = omega arith in
    let written = h ∙ runs-other true false 0 vs refl in
    let there : BooleanDecoder = state input (0 + length (code 0)) true 0 in
    ap (λ (t : ℕ). read t (new_decoder input)) out
    ∙ read-next (length vs + k) (new_decoder input) _
        (next-at_run input 0 false 0 (runs true 1 vs) written (omega arith))
    ∙ sym (read-next (length vs + k) there _ refl)
    ∙ ap (λ (t : ℕ). read t there) one
    ∙ read-runs vs 0 k input (0 + length (code 0)) true
        (behind input 0 (code 0) (runs true 1 vs) written) (omega arith)

-- The decoder reads back the values of a boolean column that the encoder wrote, fewer than 2 ^ 64,
-- in order and nothing behind them, in as many calls or more.
pub read-encode :
    (vs : List Bool) (k : ℕ)
    → length vs < 2 ^ 64
    → read (length vs + k) (new_decoder (encode vs)) ≡ vs
unfolding encode
read-encode vs k bound =
    read-column vs k (encode vs) (finish-append_all vs new_encoder (omega arith)) bound
