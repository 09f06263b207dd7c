-- ===== src/Tests/Columns.antt =====
-- The columns of the binary format at concrete values.
use automerge_cpp.Prelude.{ℕ, ◌<◌, ◌^◌, ◌≡◌, refl, arith, length, map, ==_iff, if◌then◌else◌, ltb}
use automerge_cpp.Prelude.{true, Option, none, some, List, [], ◌∷◌, ◌++◌}
use automerge_cpp.Types.{ObjType, ScalarValue, Value, object, scalar}
use automerge_cpp.Encoding.Leb128.{encode_uleb128, encode_sleb128}
use automerge_cpp.Encoding.Leb128.Unsigned.{encode_uleb128-behind}
use automerge_cpp.Encoding.Rle.{uint64, new_decoder}
use automerge_cpp.Encoding.Rle as Rle
use automerge_cpp.Encoding.Rle.Chunks.{Chunk, run, literals, nulls, column_bytes}
use automerge_cpp.Encoding.Rle.Steps.{read}
use automerge_cpp.Encoding.Rle.Writing.{encode_column}
use automerge_cpp.Encoding.Rle.Writing as Writing
use automerge_cpp.Encoding.Rle.RoundTrip.{read-encode_column}
use automerge_cpp.Encoding.Delta as Delta
use automerge_cpp.Encoding.Delta.RoundTrip as DeltaTrip
use automerge_cpp.Encoding.Delta.RoundTrip.{encode_deltas, read-encode_deltas}
use automerge_cpp.Storage.Deserializer.{Deserializer, skip}
use automerge_cpp.Storage.Reads.{IsAt, Reads-uleb128}
use automerge_cpp.Storage.Columns.Standard as Standard
use automerge_cpp.Storage.Columns.Spec.{to_u32}
use automerge_cpp.Storage.Columns.Raw.{
  RawColumn, parse_raw_columns, write_raw_columns, write_headers, write_data,
}
use automerge_cpp.Storage.Columns.RawRoundTrip.{parse-write_raw_columns}
use automerge_cpp.Storage.Columns.Values.{encode_value, write_raw, encode_scalar_value}
use automerge_cpp.Storage.Columns.ValueRoundTrip.{
  write_values, decode_values, new_columns, reader_of, as_scalar, decode_values-write_values,
}
use automerge_cpp.Storage.Columns.Compression.{
  Inflated, stream_end, more_space, deflate_decompress, Inflates, decompress-Inflates,
}

abbrev cells : List (Option ℕ)
cells = some 1 ∷ some 2 ∷ none ∷ none ∷ some 7 ∷ some 7 ∷ some 7 ∷ []

abbrev column : List (Chunk ℕ)
column = literals 1 (2 ∷ []) ∷ nulls 2 ∷ run 3 7 ∷ []

-- The encoder makes these chunks of the values.
encoded : encode_column uint64 cells ≡ column_bytes uint64 column
unfolding Rle.finish Rle.append Rle.append_null Writing.append_all column_bytes encode_uleb128
    encode_sleb128
encoded = refl

short_column : length (encode_column uint64 cells) < 2 ^ 64
unfolding Rle.finish Rle.append Rle.append_null Writing.append_all encode_uleb128 encode_sleb128
short_column = omega arith

read-encode_column_example : read uint64 8 (new_decoder (encode_column uint64 cells)) ≡ cells
read-encode_column_example =
    read-encode_column uint64 (λ v. v < 2 ^ 64) (λ v h. Reads-uleb128 v h)
      (λ v w h. (==_iff v w).0 h) encode_uleb128-behind cells 8
      (omega arith, (omega arith, (tt, (tt, (omega arith, (omega arith, (omega arith, tt)))))))
      (omega arith) short_column (omega arith)

-- The differences are 1, 1, 5, 0 and 0.
short_deltas : length (encode_deltas cells) < 2 ^ 64
unfolding Delta.finish Delta.append Delta.append_null DeltaTrip.append_all encode_uleb128
    encode_sleb128
short_deltas = omega arith

read-encode_deltas_example : DeltaTrip.read 8 (Delta.new_decoder (encode_deltas cells)) ≡ cells
read-encode_deltas_example =
    read-encode_deltas cells 8
      (omega arith, (omega arith, (tt, (tt, (omega arith, (omega arith, (omega arith, tt)))))))
      (omega arith) short_deltas (omega arith)

abbrev two_columns : List RawColumn
two_columns =
    record { spec = Standard.action; bytes = 3 ∷ 1 ∷ [] }
    ∷ record { spec = Standard.insert; bytes = 2 ∷ [] }
    ∷ []

abbrev stored : Deserializer
stored = record { input = write_raw_columns two_columns []; pos = 0 }

stored-IsAt : IsAt stored (write_raw_columns two_columns [] ++ [])
unfolding write_raw_columns write_headers write_data to_u32 encode_uleb128
stored-IsAt = record { left = refl; inside = omega arith; small = omega arith }

parse-write_raw_columns_example :
    parse_raw_columns stored
    ≡ (two_columns, skip (length (write_raw_columns two_columns [])) stored)
parse-write_raw_columns_example =
    parse-write_raw_columns two_columns stored []
      ((omega arith, omega arith), ((omega arith, omega arith), tt)) (omega arith) stored-IsAt

abbrev three_values : List Value
three_values =
    scalar (ScalarValue.string (b'h' ∷ b'i' ∷ []))
    ∷ object ObjType.list
    ∷ scalar (ScalarValue.bool true)
    ∷ []

short_metas : length (write_values three_values new_columns).meta_out < 2 ^ 64
unfolding write_values encode_value encode_scalar_value write_raw encode_uleb128
short_metas = omega arith

short_raws : length (write_values three_values new_columns).raw_out < 2 ^ 64
unfolding write_values encode_value encode_scalar_value write_raw encode_uleb128
short_raws = omega arith

short_type : length (write_raw (ScalarValue.uint 1) []) < 2 ^ 60
unfolding write_raw encode_uleb128
short_type = omega arith

short_string : length (write_raw (ScalarValue.string (b'h' ∷ b'i' ∷ [])) []) < 2 ^ 60
unfolding write_raw
short_string = omega arith

short_flag : length (write_raw (ScalarValue.bool true) []) < 2 ^ 60
unfolding write_raw
short_flag = omega arith

decode_values-write_values_example :
    decode_values 3 (reader_of (write_values three_values new_columns))
    ≡ map (λ v. scalar (as_scalar v)) three_values
decode_values-write_values_example =
    decode_values-write_values three_values
      ((omega arith, short_string), ((tt, short_type), ((tt, short_flag), tt))) short_metas
      short_raws

-- An `inflate` that makes five bytes of each input.
abbrev five : List ℕ
five = 1 ∷ 2 ∷ 3 ∷ 4 ∷ 5 ∷ []

abbrev make_five : List ℕ → ℕ → Inflated
make_five input size = if ltb size 5 then more_space else stream_end five

make_five-Inflates : Inflates make_five (9 ∷ []) five
make_five-Inflates = record { enough = λ size h. ground arith; short = λ size h. ground arith }

-- The first room is of four bytes.
decompress-Inflates_example : deflate_decompress make_five (9 ∷ []) ≡ some five
decompress-Inflates_example =
    decompress-Inflates make_five 9 [] five make_five-Inflates (omega arith) (omega arith)
