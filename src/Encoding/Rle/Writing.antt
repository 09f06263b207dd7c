-- ===== src/Encoding/Rle/Writing.antt =====
-- The encoder of run-length columns writes the chunks of its shapes.
use automerge_cpp.Prelude.{
  ℕ, zero, suc, ◌+◌, ◌%◌, ◌^◌, ◌<◌, ◌≡◌, refl, sym, ap, ◌∙◌, arith, ◌==◌, length, true, false,
  Bool-cases, inl, inr, Option, none, some, List, [], ◌∷◌, ◌++◌, append_assoc, append-nil,
}
use automerge_cpp.Encoding.Leb128.{encode_uleb128, encode_sleb128}
use automerge_cpp.Encoding.Leb128.Unsigned.{encode_uleb128-behind}
use automerge_cpp.Encoding.Leb128.Signed.{encode_sleb128-behind}
use automerge_cpp.Encoding.Rle.{
  Codec, RleEncoder, new_encoder, flush_nulls, flush_literals, end_run, flush_run, append,
  append_null, finish, encode_values, negative,
}
use automerge_cpp.Encoding.Rle.Steps.{suc-zero}
use automerge_cpp.Encoding.Rle.Chunks.{Chunk, run, nulls, codes, chunk_bytes, column_bytes}
use automerge_cpp.Encoding.Rle.Shapes.{
  Shape, fresh, running, nulling, chunk_of, pending, ended, closing, size, continues, longer,
  emitted, after, chunks, size-after,
}

module _ {T : Type 0} (c : Codec T) where
  abbrev pub add : Option T → RleEncoder T → RleEncoder T
  add none e = append_null c e
  add (some v) e = append c v e

  -- The values and nulls of a column, appended in order.
  unfoldable pub append_all : List (Option T) → RleEncoder T → RleEncoder T
  unfolding append append_null
  append_all [] e = e
  append_all (x ∷ xs) e = append_all xs (add x e)

  abbrev pub encode_column : List (Option T) → List ℕ
  encode_column xs = (finish c (append_all xs new_encoder)).output

  abbrev flushed : List ℕ → List T → RleEncoder T
  flushed out lits = record {
    output = out;
    run_value = none;
    run_count = 0;
    null_count = 0;
    literal_buffer = lits;
  }

  abbrev holds : List ℕ → Shape T → RleEncoder T
  holds out fresh = flushed out []
  holds out (running lits v n) = record (flushed out lits) { run_value = some v; run_count = suc n }
  holds out (nulling n) = record (flushed out []) { null_count = suc n }

  pub column_bytes-append :
      (ks ls : List (Chunk T)) → column_bytes c (ks ++ ls) ≡ column_bytes c ks ++ column_bytes c ls
  unfolding column_bytes
  column_bytes-append [] ls = refl
  column_bytes-append (k ∷ ks) ls =
      ap (◌++◌ (chunk_bytes c k)) (column_bytes-append ks ls)
      ∙ sym (append_assoc (chunk_bytes c k) (column_bytes c ks) (column_bytes c ls))

  joined :
      (out : List ℕ) (ks ls : List (Chunk T))
      → (out ++ column_bytes c ks) ++ column_bytes c ls ≡ out ++ column_bytes c (ks ++ ls)
  joined out ks ls =
      append_assoc out (column_bytes c ks) (column_bytes c ls)
      ∙ ap (◌++◌ out) (sym (column_bytes-append ks ls))

  module _
      (behind : (v : T) (out : List ℕ) → c.encode_value v out ≡ out ++ c.encode_value v []) where
    encode_values-codes : (vs : List T) (out : List ℕ) → encode_values c vs out ≡ out ++ codes c vs
    unfolding encode_values
    encode_values-codes [] out = sym (append-nil out)
    encode_values-codes (v ∷ vs) out =
        encode_values-codes vs (c.encode_value v out)
        ∙ ap (λ (t : List ℕ). t ++ codes c vs) (behind v out)
        ∙ append_assoc out (c.encode_value v []) (codes c vs)

    flush_literals-pending :
        (e : RleEncoder T) (lits : List T)
        → flush_literals c (record e { literal_buffer = lits })
          ≡ record e { output = e.output ++ column_bytes c (chunk_of lits); literal_buffer = [] }
    unfolding flush_literals column_bytes
    flush_literals-pending e [] =
        ap (λ (t : List ℕ). record e { output = t; literal_buffer = [] })
          (sym (append-nil e.output))
    flush_literals-pending e (v ∷ vs) =
        let head = encode_sleb128 (negative (suc (length vs))) [] in
        ap (λ (t : List ℕ). record e { output = t; literal_buffer = [] })
          (encode_values-codes (v ∷ vs) (encode_sleb128 (negative (suc (length vs))) e.output)
            ∙ ap (λ (t : List ℕ). t ++ codes c (v ∷ vs))
                (encode_sleb128-behind (negative (suc (length vs))) e.output)
            ∙ append_assoc e.output head (codes c (v ∷ vs))
            ∙ ap (◌++◌ e.output) (sym (append-nil (head ++ codes c (v ∷ vs)))))

    flush_nulls-nulling :
        (out : List ℕ) (n : ℕ)
        → flush_nulls c (holds out (nulling n))
          ≡ flushed (out ++ column_bytes c (nulls (suc n) ∷ [])) []
    unfolding flush_nulls column_bytes
    flush_nulls-nulling out n =
        let front = encode_sleb128 0 out in
        let code = encode_uleb128 (suc n) [] in
        let bytes : encode_uleb128 (suc n) front ≡ out ++ ((encode_sleb128 0 [] ++ code) ++ []) =
          encode_uleb128-behind (suc n) front
          ∙ ap (λ (t : List ℕ). t ++ code) (encode_sleb128-behind 0 out)
          ∙ append_assoc out (encode_sleb128 0 []) code
          ∙ ap (◌++◌ out) (sym (append-nil (encode_sleb128 0 [] ++ code))) in
        rw (suc-zero c n) (ap (λ (t : List ℕ). flushed t []) bytes)

    end_run-more :
        (out : List ℕ) (lits : List T) (v : T) (n : ℕ)
        → end_run c v (holds out (running lits v (suc n)))
          ≡ flushed (out ++ column_bytes c (ended (running lits v (suc n)))) []
    unfolding end_run column_bytes
    end_run-more out lits v n =
        let front = encode_sleb128 (suc (suc n)) [] in
        let code = c.encode_value v [] in
        let before = out ++ column_bytes c (chunk_of lits) in
        let last : c.encode_value v (encode_sleb128 (suc (suc n)) before)
            ≡ out ++ column_bytes c (chunk_of lits ++ (run (suc (suc n)) v ∷ [])) =
          behind v (encode_sleb128 (suc (suc n)) before)
          ∙ ap (λ (t : List ℕ). t ++ code) (encode_sleb128-behind (suc (suc n)) before)
          ∙ append_assoc before front code
          ∙ ap (◌++◌ before) (sym (append-nil (front ++ code)))
          ∙ append_assoc out (column_bytes c (chunk_of lits)) _
          ∙ ap (◌++◌ out) (sym (column_bytes-append (chunk_of lits) (run (suc (suc n)) v ∷ []))) in
        let more : (suc (suc n) == 1) ≡ false = ground arith in
        rw (end_run, more, flush_literals-pending (holds out (running lits v (suc n))) lits)
          (ap (λ (t : List ℕ). flushed t []) last)

    flush_run-no_run :
        (e : RleEncoder T) (out : List ℕ) (lits : List T)
        → flush_nulls c e ≡ flushed out lits
        → flush_run c e ≡ flushed out lits
    unfolding flush_run
    flush_run-no_run e out lits h = rw (flush_run, h) h

    flush_run-holds :
        (out : List ℕ) (s : Shape T)
        → flush_run c (holds out s) ≡ flushed (out ++ column_bytes c (ended s)) (pending s)
    unfolding flush_run column_bytes flush_nulls end_run
    flush_run-holds out fresh = ap (λ (t : List ℕ). flushed t []) (sym (append-nil out))
    flush_run-holds out (running lits v zero) =
        ap (λ (t : List ℕ). flushed t (lits ++ (v ∷ []))) (sym (append-nil out))
    flush_run-holds out (running lits v (suc n)) = end_run-more out lits v n
    flush_run-holds out (nulling n) =
        flush_run-no_run (holds out (nulling n)) (out ++ column_bytes c (nulls (suc n) ∷ [])) []
          (flush_nulls-nulling out n)

    -- The chunks that are closed: the run or the nulls, and then the literals.
    flush-holds :
        (out : List ℕ) (s : Shape T)
        → flush_literals c (flush_run c (holds out s))
          ≡ flushed (out ++ column_bytes c (closing s)) []
    flush-holds out s =
        ap (flush_literals c) (flush_run-holds out s)
        ∙ flush_literals-pending (flushed (out ++ column_bytes c (ended s)) (pending s)) (pending s)
        ∙ ap (λ (t : List ℕ). flushed t []) (joined out (ended s) (chunk_of (pending s)))

    finish-holds :
        (out : List ℕ) (s : Shape T)
        → (finish c (holds out s)).output ≡ out ++ column_bytes c (closing s)
    unfolding finish flush_nulls
    finish-holds out s = rw (finish, flush-holds out s) refl

    begins :
        (v : T) {e d : RleEncoder T}
        → e ≡ d
        → ◌≡◌ {A = RleEncoder T}
            (record e { run_value = some v; run_count = 1 })
            (record d { run_value = some v; run_count = 1 })
    begins v h = ap (λ (e : RleEncoder T). record e { run_value = some v; run_count = 1 }) h

    append-new :
        (out : List ℕ) (s : Shape T) (v : T)
        → continues c v s ≡ false
        → append c v (holds out s)
          ≡ holds (out ++ column_bytes c (ended s)) (running (pending s) v 0)
    unfolding append
    append-new out fresh v h = begins v (flush_run-holds out fresh)
    append-new out (running lits w n) v h =
        rw (append, h) (begins v (flush_run-holds out (running lits w n)))
    append-new out (nulling n) v h = begins v (flush_run-holds out (nulling n))

    append-longer :
        (out : List ℕ) (s : Shape T) (v : T)
        → continues c v s ≡ true
        → suc (size s) < 2 ^ 64
        → append c v (holds out s) ≡ holds out (longer c s)
    unfolding append
    append-longer out fresh v h small = cc
    append-longer out (running lits w n) v h small =
        let count : (suc n + 1) % 2 ^ 64 ≡ suc (suc n) = omega arith in rw (append, h, count) refl
    append-longer out (nulling n) v h small = cc

    append_null-closing :
        (out : List ℕ) (lits : List T) (v : T) (n : ℕ)
        → append_null c (holds out (running lits v n))
          ≡ holds (out ++ column_bytes c (closing (running lits v n))) (nulling 0)
    unfolding append_null
    append_null-closing out lits v n =
        ap (λ (e : RleEncoder T). record e { null_count = (e.null_count + 1) % 2 ^ 64 })
          (flush-holds out (running lits v n))

    add-holds :
        (out : List ℕ) (s : Shape T) (x : Option T)
        → suc (size s) < 2 ^ 64
        → add x (holds out s) ≡ holds (out ++ column_bytes c (emitted c s x)) (after c s x)
    unfolding append_null column_bytes
    add-holds out fresh none small = ap (λ (t : List ℕ). holds t (nulling 0)) (sym (append-nil out))
    add-holds out (running lits v n) none small = append_null-closing out lits v n
    add-holds out (nulling n) none small =
        let count : (suc n + 1) % 2 ^ 64 ≡ suc (suc n) = omega arith in
        rw count (ap (λ (t : List ℕ). holds t (nulling (suc n))) (sym (append-nil out)))
    add-holds out s (some v) small = elim (Bool-cases (continues c v s)) [
      | inl same ↦ rw same (
          append-longer out s v same small
          ∙ ap (λ (t : List ℕ). holds t (longer c s)) (sym (append-nil out)))
      | inr other ↦ rw other (append-new out s v other)
    ]

    written :
        (out : List ℕ) (s : Shape T) (xs : List (Option T))
        → size s + length xs < 2 ^ 64
        → (finish c (append_all xs (holds out s))).output ≡ out ++ column_bytes c (chunks c s xs)
    unfolding append_all chunks
    written out s [] small = finish-holds out s
    written out s (x ∷ xs) small =
        ap (λ (e : RleEncoder T). (finish c (append_all xs e)).output)
          (add-holds out s x (omega arith))
        ∙ written (out ++ column_bytes c (emitted c s x)) (after c s x) xs
            (omega (arith, size-after c s x))
        ∙ joined out (emitted c s x) (chunks c (after c s x) xs)

    -- The encoder writes the chunks of the format that its state machine prescribes.
    pub encode_column-chunks :
        (xs : List (Option T))
        → length xs < 2 ^ 64
        → encode_column xs ≡ column_bytes c (chunks c fresh xs)
    encode_column-chunks xs small = written [] fresh xs (omega arith)
