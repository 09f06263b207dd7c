-- ===== src/Storage/Columns/Decoders.antt =====
-- The decoders of columns that the encoders wrote.
use automerge_cpp.Prelude.{
  ℕ, suc, ◌+◌, ◌==◌, Bool-cases, inl, inr, ◌^◌, ◌<◌, ◌≡◌, sym, arith, length, All, ==_iff,
}
use automerge_cpp.Prelude.{Bool, ◌&&◌, Option, List, [], ◌∷◌}
use automerge_cpp.Prelude.Order.{eqb-eq, bytes_ord}
use automerge_cpp.Types.{Str}
use automerge_cpp.Encoding.Boolean.Writer as Flags
use automerge_cpp.Encoding.Boolean.RoundTrip.{read-encode}
use automerge_cpp.Encoding.Leb128.Unsigned.{encode_uleb128-behind}
use automerge_cpp.Encoding.Rle.{uint64, strings, new_decoder}
use automerge_cpp.Encoding.Rle.Writing.{encode_column}
use automerge_cpp.Encoding.Rle.RoundTrip.{read-encode_column}
use automerge_cpp.Encoding.Delta.RoundTrip.{Int64, encode_deltas, read-encode_deltas}
use automerge_cpp.Encoding.Delta as Delta
use automerge_cpp.Encoding.Boolean as Boolean
use automerge_cpp.Storage.Reads.{Reads-uleb128}
use automerge_cpp.Storage.RoundTrip.{Reads-string, write_string-behind}
use automerge_cpp.Storage.Columns.Raw.{RawColumn}
use automerge_cpp.Storage.Columns.Spec.{ColumnSpec, type_code}
use automerge_cpp.Storage.Columns.ReadOps.{find_col}
use automerge_cpp.Storage.Columns.Answers.{Column, DeltaColumn, FlagColumn}
use automerge_cpp.Storage.Columns.Fits.{Number, Name}

-- A decoder of bytes that an encoder wrote stands in front of the cells.
pub Column-numbers :
    (bytes : List ℕ) (xs : List (Option ℕ))
    → bytes ≡ encode_column uint64 xs
    → All Number xs
    → length xs < 2 ^ 63
    → length bytes < 2 ^ 64
    → Column uint64 (new_decoder bytes) xs
Column-numbers bytes xs written good few small = rw written (
    read-encode_column uint64 (λ v. v < 2 ^ 64) (λ v h. Reads-uleb128 v h)
      (λ v w h. (==_iff v w).0 h) encode_uleb128-behind xs (suc (length xs)) good few
      (rw (sym written) small) (omega arith))

pub Column-strings :
    (bytes : List ℕ) (xs : List (Option Str))
    → bytes ≡ encode_column strings xs
    → All Name xs
    → length xs < 2 ^ 63
    → length bytes < 2 ^ 64
    → Column strings (new_decoder bytes) xs
Column-strings bytes xs written good few small = rw written (
    read-encode_column strings (λ s. length s < 2 ^ 64) (λ s h. Reads-string s h)
      (λ v w h. eqb-eq v w h) write_string-behind xs (suc (length xs)) good few
      (rw (sym written) small) (omega arith))

pub Column-counters :
    (bytes : List ℕ) (xs : List (Option ℕ))
    → bytes ≡ encode_deltas xs
    → All Int64 xs
    → length xs < 2 ^ 63
    → length bytes < 2 ^ 64
    → DeltaColumn (Delta.new_decoder bytes) xs
Column-counters bytes xs written good few small =
    rw written
      (read-encode_deltas xs (suc (length xs)) good few (rw (sym written) small) (omega arith))

pub Column-flags :
    (bytes : List ℕ) (xs : List Bool)
    → bytes ≡ Flags.encode xs
    → length xs < 2 ^ 63
    → FlagColumn (Boolean.new_decoder bytes) xs
Column-flags bytes xs written few =
    let more : suc (length xs) ≡ length xs + 1 = omega arith in
    rw (written, more) (read-encode xs 1 (omega arith))

pub find_col-small :
    (spec : ColumnSpec) (columns : List RawColumn)
    → All (λ (c : RawColumn). length c.bytes < 2 ^ 64) columns
    → length (find_col spec columns) < 2 ^ 64
find_col-small spec [] small = omega arith
find_col-small spec (c ∷ columns) small =
    elim (Bool-cases
      ((c.spec).column_id == spec.column_id && type_code (c.spec).type == type_code spec.type)) [
        | inl same ↦ rw same small.0
        | inr other ↦ rw other (find_col-small spec columns small.1)
      ]
