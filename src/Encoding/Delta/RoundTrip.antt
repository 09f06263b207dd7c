-- ===== src/Encoding/Delta/RoundTrip.antt =====
-- What the decoder of delta columns reads of the columns that the encoder writes.
use automerge_cpp.Prelude.{
  ℕ, zero, suc, ◌+◌, ◌%◌, ◌^◌, ◌<◌, ◌≡◌, refl, sym, ap, ◌∙◌, arith, length, All,
}
use automerge_cpp.Prelude.{Option, none, some, List, [], ◌∷◌}
use automerge_cpp.Prelude.{==_iff}
use automerge_cpp.Encoding.Leb128.Signed.{encode_sleb128-behind}
use automerge_cpp.Encoding.Rle.{RleDecoder, int64}
use automerge_cpp.Encoding.Rle as Rle
use automerge_cpp.Encoding.Rle.Steps as Steps
use automerge_cpp.Encoding.Rle.Writing.{encode_column}
use automerge_cpp.Encoding.Rle.Writing as Writing
use automerge_cpp.Encoding.Rle.RoundTrip.{GoodValue, read-encode_column}
use automerge_cpp.Encoding.Delta.{
  DeltaEncoder, DeltaDecoder, new_encoder, new_decoder, append, append_null, finish, next,
  difference, accumulate,
}
use automerge_cpp.Storage.Reads.{Reads-sleb128}

abbrev pub add : Option ℕ → DeltaEncoder → DeltaEncoder
add none e = append_null e
add (some v) e = append v e

-- The values and nulls of a column, appended in order.
unfoldable pub append_all : List (Option ℕ) → DeltaEncoder → DeltaEncoder
unfolding append append_null
append_all [] e = e
append_all (x ∷ xs) e = append_all xs (add x e)

abbrev pub encode_deltas : List (Option ℕ) → List ℕ
encode_deltas xs = (finish (append_all xs new_encoder)).rle.output

abbrev continue :
    (DeltaDecoder → List (Option ℕ)) → Option (Option ℕ) × DeltaDecoder → List (Option ℕ)
continue others (none, d) = []
continue others (some x, d) = x ∷ others d

-- The answers of `n` calls of `next`, up to the first that has none.
unfoldable pub read : ℕ → DeltaDecoder → List (Option ℕ)
unfolding next
read zero d = []
read (suc n) d = continue (read n) (next d)

-- The differences of neighbours, and the sums of differences.
abbrev deltas : ℕ → List (Option ℕ) → List (Option ℕ)
deltas prev [] = []
deltas prev (none ∷ xs) = none ∷ deltas prev xs
deltas prev (some v ∷ xs) = some (difference v prev) ∷ deltas v xs

abbrev sums : ℕ → List (Option ℕ) → List (Option ℕ)
sums total [] = []
sums total (none ∷ xs) = none ∷ sums total xs
sums total (some v ∷ xs) = let sum = (total + v) % 2 ^ 64 in some sum ∷ sums sum xs

abbrev pub Int64 : Option ℕ → Type 0
Int64 x = GoodValue int64 (λ v. v < 2 ^ 64) (λ v h. Reads-sleb128 v h) x

sums-deltas :
    (xs : List (Option ℕ)) (prev : ℕ)
    → prev < 2 ^ 64
    → All Int64 xs
    → sums prev (deltas prev xs) ≡ xs
sums-deltas [] prev h small = refl
sums-deltas (none ∷ xs) prev h small = ap (◌∷◌ none) (sums-deltas xs prev h small.1)
sums-deltas (some v ∷ xs) prev h small =
    let back : (prev + difference v prev) % 2 ^ 64 ≡ v = omega (arith, h, small.0) in
    rw back (ap (◌∷◌ (some v)) (sums-deltas xs v small.0 small.1))

deltas-Int64 : (xs : List (Option ℕ)) (prev : ℕ) → All Int64 (deltas prev xs)
deltas-Int64 [] prev = tt
deltas-Int64 (none ∷ xs) prev = (tt, deltas-Int64 xs prev)
deltas-Int64 (some v ∷ xs) prev = (omega arith, deltas-Int64 xs v)

length-deltas : (xs : List (Option ℕ)) (prev : ℕ) → length (deltas prev xs) ≡ length xs
length-deltas [] prev = refl
length-deltas (none ∷ xs) prev = omega (arith, length-deltas xs prev)
length-deltas (some v ∷ xs) prev = omega (arith, length-deltas xs v)

append_all-deltas :
    (xs : List (Option ℕ)) (e : DeltaEncoder)
    → (append_all xs e).rle ≡ Writing.append_all int64 (deltas e.prev xs) e.rle
unfolding append_all append append_null Writing.append_all
append_all-deltas [] e = refl
append_all-deltas (none ∷ xs) e = append_all-deltas xs (append_null e)
append_all-deltas (some v ∷ xs) e = append_all-deltas xs (append v e)

continue-sums :
    (n : ℕ) (d : DeltaDecoder)
    → ((e : DeltaDecoder) → read n e ≡ sums e.absolute (Steps.read int64 n e.rle))
    → (answer : Option (Option ℕ) × RleDecoder ℕ)
    → continue (read n) (accumulate d answer)
      ≡ sums d.absolute (Steps.continue int64 (Steps.read int64 n) answer)
continue-sums n d others (none, rle) = refl
continue-sums n d others (some none, rle) = ap (◌∷◌ none) (others (record d { rle = rle }))
continue-sums n d others (some (some delta), rle) =
    let sum = (d.absolute + delta) % 2 ^ 64 in
    ap (◌∷◌ (some sum)) (others (record { rle = rle; absolute = sum }))

read-sums : (n : ℕ) (d : DeltaDecoder) → read n d ≡ sums d.absolute (Steps.read int64 n d.rle)
unfolding read Steps.read next
read-sums zero d = refl
read-sums (suc n) d = continue-sums n d (read-sums n) (Rle.next int64 d.rle)

-- The decoder of delta columns reads back the 64-bit values and the nulls of a column that the
-- encoder wrote, in their order and nothing behind them, in more calls than there are values, for
-- fewer than 2 ^ 63 values in fewer than 2 ^ 64 bytes.
pub read-encode_deltas :
    (xs : List (Option ℕ)) (n : ℕ)
    → All Int64 xs
    → length xs < 2 ^ 63
    → length (encode_deltas xs) < 2 ^ 64
    → length xs < n
    → read n (new_decoder (encode_deltas xs)) ≡ xs
unfolding finish
read-encode_deltas xs n good few small enough =
    let ds = deltas 0 xs in
    let bytes : encode_deltas xs ≡ encode_column int64 ds =
      ap (λ (e : Rle.RleEncoder ℕ). (Rle.finish int64 e).output)
        (append_all-deltas xs new_encoder) in
    rw bytes (
      read-sums n (new_decoder (encode_column int64 ds))
      ∙ ap (sums 0) (
          read-encode_column int64 (λ v. v < 2 ^ 64) (λ v h. Reads-sleb128 v h)
            (λ v w h. (==_iff v w).0 h) encode_sleb128-behind ds n (deltas-Int64 xs 0)
            (omega (arith, length-deltas xs 0)) (rw (sym bytes) small)
            (omega (arith, length-deltas xs 0)))
      ∙ sums-deltas xs 0 (omega arith) good)
