-- ===== src/Storage/Columns/Raw.antt =====
-- src/storage/columns/raw_column.hpp: the columns of a chunk, behind the table of their headers.
use automerge_cpp.Prelude.{ℕ, zero, suc, ◌%◌, ◌^◌, if◌then◌else◌, leb, length}
use automerge_cpp.Prelude.{Option, none, some, List, [], ◌∷◌, ◌++◌}
use automerge_cpp.Encoding.Leb128.{encode_uleb128}
use automerge_cpp.Storage.Deserializer.{Deserializer, Reader, read_uleb128, read_bytes}
use automerge_cpp.Storage.Columns.Spec.{ColumnSpec, to_u32, from_u32}

pub record RawColumn : Type 0 where
  pub spec : ColumnSpec
  pub bytes : List ℕ

pub record ColHeader : Type 0 where
  pub spec : ColumnSpec
  pub length : ℕ

-- A number, where the input has a byte left.
unfoldable pub read_more : Reader ℕ
read_more d = let number = read_uleb128 d in if leb (length d.input) d.pos then none else number

-- A header, and where the reading stops.
unfoldable pub read_header : Deserializer → Option ColHeader × Deserializer
read_header d = elim (read_more d) [
  | none ↦ (none, d)
  | some (spec, d') ↦ elim (read_more d') [
    | none ↦ (none, d')
    | some (len, d'') ↦ (some (record { spec = from_u32 (spec % 2 ^ 32); length = len }), d'')
  ]
]

-- The first header that cannot be read ends the headers.
abbrev pub and_headers :
    (Deserializer → List ColHeader × Deserializer)
    → Option ColHeader × Deserializer
    → List ColHeader × Deserializer
and_headers others (none, d) = ([], d)
and_headers others (some h, d) = let (hs, d') = others d in (h ∷ hs, d')

unfoldable pub read_headers : ℕ → Deserializer → List ColHeader × Deserializer
read_headers zero d = ([], d)
read_headers (suc n) d = and_headers (read_headers n) (read_header d)

-- The first column that goes past the end of the input ends the columns.
unfoldable pub read_columns : List ColHeader → Deserializer → List RawColumn × Deserializer
read_columns [] d = ([], d)
read_columns (h ∷ hs) d = elim (read_bytes h.length d) [
  | none ↦ ([], d)
  | some (bytes, d') ↦
      let (columns, d'') = read_columns hs d' in
      (record { spec = h.spec; bytes = bytes } ∷ columns, d'')
]

-- The position is a part of the deserializer.
unfoldable pub parse_raw_columns : Deserializer → List RawColumn × Deserializer
parse_raw_columns d = elim (read_more d) [
  | none ↦ ([], d)
  | some (num_columns, d') ↦
      let (headers, d'') = read_headers num_columns d' in read_columns headers d''
]

unfoldable pub write_headers : List RawColumn → List ℕ → List ℕ
write_headers [] out = out
write_headers (c ∷ cs) out =
    write_headers cs (encode_uleb128 (length c.bytes) (encode_uleb128 (to_u32 c.spec) out))

unfoldable pub write_data : List RawColumn → List ℕ → List ℕ
write_data [] out = out
write_data (c ∷ cs) out = write_data cs (out ++ c.bytes)

unfoldable pub write_raw_columns : List RawColumn → List ℕ → List ℕ
write_raw_columns columns out =
    write_data columns (write_headers columns (encode_uleb128 (length columns) out))
