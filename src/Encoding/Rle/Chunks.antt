-- ===== src/Encoding/Rle/Chunks.antt =====
-- The format of run-length columns: runs, literals and nulls.
use automerge_cpp.Prelude.{ℕ, suc, length, replicate, map}
use automerge_cpp.Prelude.{Option, none, some, List, [], ◌∷◌, ◌++◌}
use automerge_cpp.Encoding.Leb128.{encode_uleb128, encode_sleb128}
use automerge_cpp.Encoding.Rle.{Codec, negative}

-- A part of a column.
pub data Chunk (T : Type 0) : Type 0 where
  run : ℕ → T → Chunk T
  literals : T → List T → Chunk T
  nulls : ℕ → Chunk T

abbrev pub chunk_values : {T : Type 0} → Chunk T → List (Option T)
chunk_values (run n v) = replicate n (some v)
chunk_values (literals v vs) = some v ∷ map some vs
chunk_values (nulls n) = replicate n none

unfoldable pub column_values : {T : Type 0} → List (Chunk T) → List (Option T)
column_values [] = []
column_values (k ∷ ks) = chunk_values k ++ column_values ks

module _ {T : Type 0} (c : Codec T) where
  abbrev pub codes : List T → List ℕ
  codes [] = []
  codes (v ∷ vs) = c.encode_value v [] ++ codes vs

  -- A positive count and the value, a negative count and the values, or 0 and the count.
  abbrev pub chunk_bytes : Chunk T → List ℕ
  chunk_bytes (run n v) = encode_sleb128 n [] ++ c.encode_value v []
  chunk_bytes (literals v vs) = encode_sleb128 (negative (suc (length vs))) [] ++ codes (v ∷ vs)
  chunk_bytes (nulls n) = encode_sleb128 0 [] ++ encode_uleb128 n []

  unfoldable pub column_bytes : List (Chunk T) → List ℕ
  column_bytes [] = []
  column_bytes (k ∷ ks) = chunk_bytes k ++ column_bytes ks
