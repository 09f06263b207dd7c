-- ===== src/Tests/Storages.antt =====
-- The binary format at concrete bytes.
use automerge_cpp.Prelude.{ℕ, ◌^◌, ◌<◌, ◌≡◌, refl, arith, length, true, some, List, [], ◌∷◌, ◌++◌}
use automerge_cpp.Types.{ScalarValue, Value, scalar}
use automerge_cpp.Encoding.Leb128.{encode_uleb128}
use automerge_cpp.Storage.Serializer.{write_u8, write_string, write_scalar_value, write_value}
use automerge_cpp.Storage.Deserializer.{Deserializer, read_value, skip, value}
use automerge_cpp.Storage.Reads.{IsAt}
use automerge_cpp.Storage.RoundTrip.{read_value-write_value}
use automerge_cpp.Storage.Chunk.{
  write_chunk, parse_chunk_header, validate_chunk_checksum, compute_chunk_checksum,
}
use automerge_cpp.Storage.Chunk.RoundTrip.{parse-write_chunk, written_header}
use automerge_cpp.Crypto.Sha256.{sha256}
use automerge_cpp.Sync.Protocol.{SyncState, new_sync_state}
use automerge_cpp.Sync.State.{encode, decode, decode-encode}

abbrev word : Value
word = scalar (ScalarValue.string (b'a' ∷ b'b' ∷ []))

-- The value, and one byte behind it.
abbrev stored : Deserializer
stored = record { input = write_value word [] ++ (7 ∷ []); pos = 0 }

stored-IsAt : IsAt stored (write_value word [] ++ (7 ∷ []))
unfolding write_value write_scalar_value write_string write_u8 encode_uleb128
stored-IsAt = record { left = refl; inside = omega arith; small = omega arith }

read_value-write_value_example :
    read_value stored ≡ some (value word, skip (length (write_value word [])) stored)
read_value-write_value_example =
    read_value-write_value word stored (7 ∷ []) (omega arith) stored-IsAt

abbrev body : List ℕ
body = b'a' ∷ b'b' ∷ b'c' ∷ []

short_chunk : length (write_chunk 1 body [] ++ []) < 2 ^ 64
unfolding write_chunk compute_chunk_checksum sha256 encode_uleb128
short_chunk = omega arith

parse-write_chunk_example :
    (parse_chunk_header (write_chunk 1 body [] ++ []) ≡ some (written_header 1 body))
    × (validate_chunk_checksum (written_header 1 body) (write_chunk 1 body [] ++ []) ≡ true)
parse-write_chunk_example = parse-write_chunk 1 body [] short_chunk

abbrev shared : SyncState
shared = record new_sync_state {
  shared_heads = record { bytes = sha256 body } ∷ [];
  in_flight = true;
}

shared-IsHash : length (sha256 body) ≡ 32
unfolding sha256
shared-IsHash = refl

decode-encode_example :
    decode (encode shared) ≡ some (record new_sync_state { shared_heads = shared.shared_heads })
decode-encode_example = decode-encode shared (shared-IsHash, tt) (omega arith)
