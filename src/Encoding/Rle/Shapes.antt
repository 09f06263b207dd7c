-- ===== src/Encoding/Rle/Shapes.antt =====
-- What the encoder of run-length columns holds back, and the chunks that it writes when.
use automerge_cpp.Prelude.{
  ℕ, zero, suc, ◌+◌, ◌≤◌, arith, if◌then◌else◌, length, length-append, Bool, false, Bool-cases, inl,
  inr, Option, none, some, List, [], ◌∷◌, ◌++◌,
}
use automerge_cpp.Encoding.Rle.{Codec}
use automerge_cpp.Encoding.Rle.Chunks.{Chunk, run, literals, nulls}

-- What the encoder holds back: a run of `suc n` values behind literals, or `suc n` nulls.
pub data Shape (T : Type 0) : Type 0 where
  fresh : Shape T
  running : List T → T → ℕ → Shape T
  nulling : ℕ → Shape T

abbrev pub chunk_of : {T : Type 0} → List T → List (Chunk T)
chunk_of [] = []
chunk_of (v ∷ vs) = literals v vs ∷ []

-- The literals that are left when the run or the nulls end, and the chunks written then.
abbrev pub pending : {T : Type 0} → Shape T → List T
pending fresh = []
pending (running lits v zero) = lits ++ (v ∷ [])
pending (running lits v (suc n)) = []
pending (nulling n) = []

abbrev pub ended : {T : Type 0} → Shape T → List (Chunk T)
ended fresh = []
ended (running lits v zero) = []
ended (running lits v (suc n)) = chunk_of lits ++ (run (suc (suc n)) v ∷ [])
ended (nulling n) = nulls (suc n) ∷ []

abbrev pub closing : {T : Type 0} → Shape T → List (Chunk T)
closing s = ended s ++ chunk_of (pending s)

-- The number of values that are held back.
abbrev pub size : {T : Type 0} → Shape T → ℕ
size fresh = 0
size (running lits v n) = length lits + suc n
size (nulling n) = suc n

module _ {T : Type 0} (c : Codec T) where
  abbrev pub continues : T → Shape T → Bool
  continues v fresh = false
  continues v (running lits w n) = c.same w v
  continues v (nulling n) = false

  abbrev pub longer : Shape T → Shape T
  longer fresh = fresh
  longer (running lits v n) = running lits v (suc n)
  longer (nulling n) = nulling (suc n)

  -- The chunks that a value or a null ends, and what is held back with it.
  abbrev pub emitted : Shape T → Option T → List (Chunk T)
  emitted (nulling n) none = []
  emitted fresh none = []
  emitted (running lits v n) none = closing (running lits v n)
  emitted s (some v) = if continues v s then [] else ended s

  abbrev pub after : Shape T → Option T → Shape T
  after (nulling n) none = nulling (suc n)
  after fresh none = nulling 0
  after (running lits v n) none = nulling 0
  after s (some v) = if continues v s then longer s else running (pending s) v 0

  pub size-after : (s : Shape T) (x : Option T) → size (after s x) ≤ suc (size s)
  size-after fresh none = omega arith
  size-after (running lits v n) none = omega arith
  size-after (nulling n) none = omega arith
  size-after fresh (some v) = omega arith
  size-after (running lits w zero) (some v) = elim (Bool-cases (c.same w v)) [
    | inl same ↦ rw same (omega arith)
    | inr other ↦ rw other (omega (arith, length-append lits (w ∷ [])))
  ]
  size-after (running lits w (suc n)) (some v) = elim (Bool-cases (c.same w v)) [
    | inl same ↦ rw same (omega arith)
    | inr other ↦ rw other (omega arith)
  ]
  size-after (nulling n) (some v) = omega arith

  -- The chunks of a column, as what is held back and the values behind it.
  unfoldable pub chunks : Shape T → List (Option T) → List (Chunk T)
  chunks s [] = closing s
  chunks s (x ∷ xs) = emitted s x ++ chunks (after s x) xs
