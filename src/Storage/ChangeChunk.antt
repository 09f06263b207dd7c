-- ===== src/Storage/ChangeChunk.antt =====
-- src/storage/change_chunk.hpp: a change as the body of a chunk. A zlib is a parameter, and so is the
-- `ObjType` of a number without a name.
use automerge_cpp.Prelude.{ℕ, zero, suc, if◌then◌else◌, ltb, ◌==◌, length, drop, get_elem?}
use automerge_cpp.Prelude.{Bool, true, false, ◌&&◌, Option, none, some, List, [], ◌∷◌, ◌++◌}
use automerge_cpp.Types.{ActorId, ChangeHash, ObjType, Op, Change, Str}
use automerge_cpp.Encoding.Leb128.{DecodeResult, encode_uleb128, encode_sleb128, decode_uleb128}
use automerge_cpp.Storage.Serializer.{actor_index, write_change_hash}
use automerge_cpp.Storage.Deserializer.{
  Deserializer, Reader, ◌>>=◌, pure, pure_option, mapped, read_sleb128, read_bytes,
  read_change_hash,
}
use automerge_cpp.Prelude.{leb}
use automerge_cpp.Storage.Columns.Raw.{RawColumn, read_more, parse_raw_columns, write_raw_columns}
use automerge_cpp.Storage.Columns.ChangeOps.{encode_change_ops}
use automerge_cpp.Storage.Columns.ReadOps.{decode_change_ops}
use automerge_cpp.Storage.Columns.Compression.{Inflated, deflate_compress, deflate_decompress}

abbrev pub deflate_threshold : ℕ
deflate_threshold = 256

abbrev write_message : Option Str → List ℕ → List ℕ
write_message (some message) body = encode_uleb128 (length message) body ++ message
write_message none body = encode_uleb128 0 body

abbrev write_deps : List ChangeHash → List ℕ → List ℕ
write_deps [] body = body
write_deps (dep ∷ deps) body = write_deps deps (write_change_hash dep body)

module _ (deflate : List ℕ → Option (List ℕ)) where
  -- A column that gets shorter, behind its length.
  abbrev with_compressed : RawColumn → Option (List ℕ) → RawColumn
  with_compressed col none = col
  with_compressed col (some compressed) =
      if ltb (length compressed) (length col.bytes)
      then (record {
        spec = record col.spec { deflate = true };
        bytes = encode_uleb128 (length col.bytes) [] ++ compressed;
      })
      else col

  unfoldable pub compress_column : RawColumn → RawColumn
  compress_column col =
      if ltb deflate_threshold (length col.bytes)
      then with_compressed col (deflate_compress deflate col.bytes)
      else col

  unfoldable pub compress_columns : List RawColumn → List RawColumn
  compress_columns [] = []
  compress_columns (col ∷ columns) = compress_column col ∷ compress_columns columns

  -- The fields in front of the columns.
  unfoldable pub write_fields : Change → List ActorId → List ℕ
  write_fields change actor_table =
      let body = encode_uleb128 (actor_index change.actor actor_table 0) [] in
      let body = encode_uleb128 change.seq body in
      let body = encode_uleb128 change.start_op body in
      let body = encode_sleb128 change.timestamp body in
      let body = write_message change.message body in
      let body = write_deps change.deps (encode_uleb128 (length change.deps) body) in
      encode_uleb128 (length change.operations) body

  unfoldable pub serialize_change_body : Change → List ActorId → List ℕ
  serialize_change_body change actor_table =
      write_raw_columns (compress_columns (encode_change_ops change.operations actor_table))
        (write_fields change actor_table)

-- `read_sleb`, where the body has a byte left.
unfoldable pub read_more_signed : Reader ℕ
read_more_signed d =
    let number = read_sleb128 d in if leb (length d.input) d.pos then none else number

abbrev read_message : Reader (Option Str)
read_message = do
  msg_len ← read_more
  if msg_len == 0 then pure none else mapped some (read_bytes msg_len)

unfoldable pub read_deps : ℕ → Reader (List ChangeHash)
read_deps zero = pure []
read_deps (suc n) = do hash ← read_change_hash; deps ← read_deps n; pure (hash ∷ deps)

-- The fields of a change in front of the columns, and the number of operations.
pub record ChangeFields : Type 0 where
  pub actor : ActorId
  pub seq : ℕ
  pub start_op : ℕ
  pub timestamp : ℕ
  pub message : Option Str
  pub deps : List ChangeHash
  pub num_ops : ℕ

unfoldable pub read_fields : List ActorId → Reader ChangeFields
read_fields actor_table = do
  actor_idx ← read_more
  actor ← pure_option (get_elem? actor_table actor_idx)
  seq ← read_more
  start_op ← read_more
  timestamp ← read_more_signed
  message ← read_message
  num_deps ← read_more
  deps ← read_deps num_deps
  num_ops ← read_more
  pure (record {
    actor = actor;
    seq = seq;
    start_op = start_op;
    timestamp = timestamp;
    message = message;
    deps = deps;
    num_ops = num_ops;
  })

module _ (inflate : List ℕ → ℕ → Inflated) where
  abbrev inflated_column : RawColumn → Option (List ℕ) → Option RawColumn
  inflated_column col none = none
  inflated_column col (some bytes) =
      some (record { spec = record col.spec { deflate = false }; bytes = bytes })

  -- Behind the length, which is not used.
  abbrev behind_length : RawColumn → Option DecodeResult → Option RawColumn
  behind_length col none = none
  behind_length col (some r) =
      inflated_column col (deflate_decompress inflate (drop r.bytes_read col.bytes))

  abbrev has_bytes : List ℕ → Bool
  has_bytes [] = false
  has_bytes (b ∷ bytes) = true

  unfoldable pub decompress_column : RawColumn → Option RawColumn
  decompress_column col =
      if (col.spec).deflate && has_bytes col.bytes
      then behind_length col (decode_uleb128 col.bytes)
      else some col

  abbrev and_column : Option RawColumn → Option (List RawColumn) → Option (List RawColumn)
  and_column none columns = none
  and_column (some col) none = none
  and_column (some col) (some columns) = some (col ∷ columns)

  unfoldable pub decompress_columns : List RawColumn → Option (List RawColumn)
  decompress_columns [] = some []
  decompress_columns (col ∷ columns) =
      and_column (decompress_column col) (decompress_columns columns)

  module _ (unnamed : ℕ → ObjType) (actor_table : List ActorId) where
    abbrev change_with : ChangeFields → Option (List Op) → Option Change
    change_with f none = none
    change_with f (some operations) = some (record {
      actor = f.actor;
      seq = f.seq;
      start_op = f.start_op;
      timestamp = f.timestamp;
      message = f.message;
      deps = f.deps;
      operations = operations;
    })

    abbrev decode_columns : ChangeFields → Option (List RawColumn) → Option Change
    decode_columns f none = none
    decode_columns f (some columns) =
        change_with f (decode_change_ops unnamed actor_table f.actor columns f.start_op f.num_ops)

    abbrev behind_fields : Option (ChangeFields × Deserializer) → Option Change
    behind_fields none = none
    behind_fields (some (f, d)) =
        let (columns, d') = parse_raw_columns d in decode_columns f (decompress_columns columns)

    unfoldable pub parse_change_chunk : List ℕ → Option Change
    parse_change_chunk body =
        behind_fields (read_fields actor_table (record { input = body; pos = 0 }))
