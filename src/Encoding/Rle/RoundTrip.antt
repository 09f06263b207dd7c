-- ===== src/Encoding/Rle/RoundTrip.antt =====
-- What the decoder of run-length columns reads of the columns that the encoder writes.
use automerge_cpp.Prelude.{
  ℕ, zero, suc, ◌+◌, ◌^◌, ◌≤◌, ◌<◌, ◌≡◌, refl, sym, ap, ◌∙◌, arith, length, length-append, All,
  replicate, map, map-append,
}
use automerge_cpp.Prelude.{
  true, Bool-cases, inl, inr, Option, none, some, List, [], ◌∷◌, ◌++◌, append_assoc, append-nil,
}
use automerge_cpp.Encoding.Rle.{Codec, new_decoder}
use automerge_cpp.Encoding.Rle.Chunks.{Chunk, run, chunk_values, column_values}
use automerge_cpp.Encoding.Rle.Steps.{read}
use automerge_cpp.Encoding.Rle.Decoding.{IsChunk, read-column}
use automerge_cpp.Encoding.Rle.Shapes.{
  Shape, fresh, running, nulling, chunk_of, pending, ended, closing, size, continues, emitted,
  after, longer, chunks, size-after,
}
use automerge_cpp.Encoding.Rle.Writing.{encode_column, encode_column-chunks}
use automerge_cpp.Storage.Reads.{Reads}

replicate-snoc : {A : Type 0} (n : ℕ) (a : A) → replicate n a ++ (a ∷ []) ≡ replicate (suc n) a
replicate-snoc zero a = refl
replicate-snoc (suc n) a = ap (◌∷◌ a) (replicate-snoc n a)

pub All-append :
    {A : Type 0} (P : A → Type 0) (xs ys : List A) → All P xs → All P ys → All P (xs ++ ys)
All-append P [] ys h k = k
All-append P (x ∷ xs) ys h k = (h.0, All-append P xs ys h.1 k)

-- The values that the encoder holds back.
abbrev held : {T : Type 0} → Shape T → List (Option T)
held fresh = []
held (running lits v n) = map some lits ++ replicate (suc n) (some v)
held (nulling n) = replicate (suc n) none

column_values-append :
    {T : Type 0} (ks ls : List (Chunk T))
    → column_values (ks ++ ls) ≡ column_values ks ++ column_values ls
unfolding column_values
column_values-append [] ls = refl
column_values-append (k ∷ ks) ls =
    ap (◌++◌ (chunk_values k)) (column_values-append ks ls)
    ∙ sym (append_assoc (chunk_values k) (column_values ks) (column_values ls))

values-chunk_of : {T : Type 0} (vs : List T) → column_values (chunk_of vs) ≡ map some vs
unfolding column_values
values-chunk_of [] = refl
values-chunk_of (v ∷ vs) = append-nil (map some (v ∷ vs))

values-ended : {T : Type 0} (s : Shape T) → column_values (ended s) ++ map some (pending s) ≡ held s
unfolding column_values
values-ended fresh = refl
values-ended (running lits v zero) = map-append some lits (v ∷ [])
values-ended (running lits v (suc n)) =
    append-nil (column_values (ended (running lits v (suc n))))
    ∙ column_values-append (chunk_of lits) (run (suc (suc n)) v ∷ [])
    ∙ ap (λ (t : List (Option _)). t ++ (replicate (suc (suc n)) (some v) ++ []))
        (values-chunk_of lits)
    ∙ ap (◌++◌ (map some lits)) (append-nil (replicate (suc (suc n)) (some v)))
values-ended (nulling n) =
    append-nil (replicate (suc n) none ++ []) ∙ append-nil (replicate (suc n) none)

values-closing : {T : Type 0} (s : Shape T) → column_values (closing s) ≡ held s
values-closing s =
    column_values-append (ended s) (chunk_of (pending s))
    ∙ ap (◌++◌ (column_values (ended s))) (values-chunk_of (pending s))
    ∙ values-ended s

module _ {T : Type 0} (c : Codec T) where
  module _ (equal : (v w : T) → c.same v w ≡ true → v ≡ w) where
    values-new :
        (s : Shape T) (v : T)
        → column_values (ended s) ++ held (running (pending s) v 0) ≡ held s ++ (some v ∷ [])
    values-new s v =
        sym (append_assoc (column_values (ended s)) (map some (pending s)) (some v ∷ []))
        ∙ ap (λ (t : List (Option T)). t ++ (some v ∷ [])) (values-ended s)

    values-longer :
        (s : Shape T) (v : T) → continues c v s ≡ true → held (longer c s) ≡ held s ++ (some v ∷ [])
    values-longer fresh v h = cc
    values-longer (running lits w n) v h = rw (sym (equal w v h)) (
        ap (◌++◌ (map some lits)) (sym (replicate-snoc (suc n) (some w)))
        ∙ sym (append_assoc (map some lits) (replicate (suc n) (some w)) (some w ∷ [])))
    values-longer (nulling n) v h = cc

    values-step :
        (s : Shape T) (x : Option T)
        → column_values (emitted c s x) ++ held (after c s x) ≡ held s ++ (x ∷ [])
    unfolding column_values
    values-step fresh none = refl
    values-step (running lits v n) none =
        ap (λ (t : List (Option T)). t ++ (none ∷ [])) (values-closing (running lits v n))
    values-step (nulling n) none = sym (replicate-snoc (suc n) none)
    values-step s (some v) = elim (Bool-cases (continues c v s)) [
      | inl same ↦ rw same (values-longer s v same)
      | inr other ↦ rw other (values-new s v)
    ]

    values-chunks :
        (s : Shape T) (xs : List (Option T)) → column_values (chunks c s xs) ≡ held s ++ xs
    unfolding chunks
    values-chunks s [] = values-closing s ∙ sym (append-nil (held s))
    values-chunks s (x ∷ xs) =
        column_values-append (emitted c s x) (chunks c (after c s x) xs)
        ∙ ap (◌++◌ (column_values (emitted c s x))) (values-chunks (after c s x) xs)
        ∙ sym (append_assoc (column_values (emitted c s x)) (held (after c s x)) xs)
        ∙ ap (λ (t : List (Option T)). t ++ xs) (values-step s x)
        ∙ append_assoc (held s) (x ∷ []) xs

  module _ (Good : T → Type 0)
      (laws : (v : T) → Good v → Reads c.decode_value (c.encode_value v []) v) where
    abbrev pub GoodValue : Option T → Type 0
    GoodValue none = Unit
    GoodValue (some v) = Good v

    abbrev GoodShape : Shape T → Type 0
    GoodShape fresh = Unit
    GoodShape (running lits v n) = All Good lits × Good v
    GoodShape (nulling n) = Unit

    abbrev AllChunks : List (Chunk T) → Type 0
    AllChunks ks = All (IsChunk c Good laws) ks

    Good-pending : (s : Shape T) → GoodShape s → All Good (pending s)
    Good-pending fresh h = tt
    Good-pending (running lits v zero) h = All-append Good lits (v ∷ []) h.0 (h.1, tt)
    Good-pending (running lits v (suc n)) h = tt
    Good-pending (nulling n) h = tt

    pending-size : (s : Shape T) → length (pending s) ≤ size s
    pending-size fresh = omega arith
    pending-size (running lits v zero) = omega (arith, length-append lits (v ∷ []))
    pending-size (running lits v (suc n)) = omega arith
    pending-size (nulling n) = omega arith

    chunk_of-AllChunks : (vs : List T) → All Good vs → length vs ≤ 2 ^ 63 → AllChunks (chunk_of vs)
    chunk_of-AllChunks [] h small = tt
    chunk_of-AllChunks (v ∷ vs) h small = ((small, h), tt)

    ended-AllChunks : (s : Shape T) → GoodShape s → size s < 2 ^ 63 → AllChunks (ended s)
    ended-AllChunks fresh h small = tt
    ended-AllChunks (running lits v zero) h small = tt
    ended-AllChunks (running lits v (suc n)) h small =
        All-append (IsChunk c Good laws) (chunk_of lits) (run (suc (suc n)) v ∷ [])
          (chunk_of-AllChunks lits h.0 (omega arith)) ((omega arith, h.1), tt)
    ended-AllChunks (nulling n) h small = (omega arith, tt)

    closing-AllChunks : (s : Shape T) → GoodShape s → size s < 2 ^ 63 → AllChunks (closing s)
    closing-AllChunks s h small =
        All-append (IsChunk c Good laws) (ended s) (chunk_of (pending s))
          (ended-AllChunks s h small)
          (chunk_of-AllChunks (pending s) (Good-pending s h) (omega (arith, pending-size s)))

    longer-GoodShape : (s : Shape T) → GoodShape s → GoodShape (longer c s)
    longer-GoodShape fresh h = h
    longer-GoodShape (running lits v n) h = h
    longer-GoodShape (nulling n) h = h

    after-GoodShape :
        (s : Shape T) (x : Option T) → GoodShape s → GoodValue x → GoodShape (after c s x)
    after-GoodShape fresh none h good = tt
    after-GoodShape (running lits v n) none h good = tt
    after-GoodShape (nulling n) none h good = tt
    after-GoodShape s (some v) h good = elim (Bool-cases (continues c v s)) [
      | inl same ↦ rw same (longer-GoodShape s h)
      | inr other ↦ rw other (Good-pending s h, good)
    ]

    emitted-AllChunks :
        (s : Shape T) (x : Option T) → GoodShape s → size s < 2 ^ 63 → AllChunks (emitted c s x)
    emitted-AllChunks fresh none h small = tt
    emitted-AllChunks (running lits v n) none h small = closing-AllChunks (running lits v n) h small
    emitted-AllChunks (nulling n) none h small = tt
    emitted-AllChunks s (some v) h small = elim (Bool-cases (continues c v s)) [
      | inl same ↦ rw same tt
      | inr other ↦ rw other (ended-AllChunks s h small)
    ]

    chunks-AllChunks :
        (s : Shape T) (xs : List (Option T))
        → GoodShape s
        → All GoodValue xs
        → size s + length xs < 2 ^ 63
        → AllChunks (chunks c s xs)
    unfolding chunks
    chunks-AllChunks s [] h good small = closing-AllChunks s h (omega arith)
    chunks-AllChunks s (x ∷ xs) h good small =
        All-append (IsChunk c Good laws) (emitted c s x) (chunks c (after c s x) xs)
          (emitted-AllChunks s x h (omega arith))
          (chunks-AllChunks (after c s x) xs (after-GoodShape s x h good.0) good.1
            (omega (arith, size-after c s x)))

    -- The decoder reads back the values and nulls of a run-length column that the encoder wrote, in
    -- their order and nothing behind them, in more calls than there are values, for fewer than
    -- 2 ^ 63 values in fewer than 2 ^ 64 bytes, and a codec that tells different values apart,
    -- writes a value behind what is written, and reads back the values of the column.
    pub read-encode_column :
        ((v w : T) → c.same v w ≡ true → v ≡ w)
        → ((v : T) (out : List ℕ) → c.encode_value v out ≡ out ++ c.encode_value v [])
        → (xs : List (Option T)) (n : ℕ) → All GoodValue xs
        → length xs < 2 ^ 63
        → length (encode_column c xs) < 2 ^ 64
        → length xs < n
        → read c n (new_decoder (encode_column c xs)) ≡ xs
    read-encode_column equal behind xs n good few small enough =
        let ks = chunks c fresh xs in
        let bytes = encode_column-chunks c behind xs (omega arith) in
        let values : column_values ks ≡ xs = values-chunks equal fresh xs in
        rw bytes (
          read-column c Good laws ks n (chunks-AllChunks fresh xs tt good (omega arith))
            (rw (sym bytes) small) (rw values enough)
          ∙ values)
