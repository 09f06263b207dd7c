-- ===== src/Storage/Chunk.antt =====
-- src/storage/chunk.hpp. A `ChunkType` is its byte, which the parser takes as it is.
pub mod RoundTrip
use automerge_cpp.Prelude.{
  ℕ, zero, suc, ◌+◌, ◌^◌, ◌%◌, ◌≤◌, ◌<◌, ◌≡◌, refl, sym, ap, ◌∙◌, arith, if◌then◌else◌, ltb, leb,
  ◌==◌, length, take, drop, behind, length-append, drop-append, get_elem?,
}
use automerge_cpp.Prelude.{
  Bool, true, false, not, ◌&&◌, Option, none, some, List, [], ◌∷◌, ◌++◌, append_assoc, append-nil,
}
use automerge_cpp.Crypto.Sha256.{sha256}
use automerge_cpp.Encoding.Leb128.{DecodeResult, encode_uleb128, decode_uleb128}
use automerge_cpp.Encoding.Leb128.Unsigned.{decode-encode_uleb128, encode_uleb128-behind}

abbrev pub chunk_magic : List ℕ
chunk_magic = 0x85 ∷ 0x6f ∷ 0x4a ∷ 0x83 ∷ []

pub record ChunkHeader : Type 0 where
  pub type : ℕ
  pub checksum : List ℕ
  pub body_offset : ℕ
  pub body_length : ℕ

unfoldable pub compute_chunk_checksum : List ℕ → List ℕ
unfolding sha256
compute_chunk_checksum body = take 4 (sha256 body)

-- `std::memcmp(xs, ys, 4) == 0` of four bytes each.
unfoldable pub same_bytes : List ℕ → List ℕ → Bool
same_bytes [] [] = true
same_bytes (x ∷ xs) (y ∷ ys) = x == y && same_bytes xs ys
same_bytes _ _ = false

abbrev header_of : ℕ → List ℕ → ℕ → Option DecodeResult → Option ChunkHeader
header_of type checksum pos none = none
header_of type checksum pos (some r) = some (record {
  type = type;
  checksum = checksum;
  body_offset = pos + r.bytes_read;
  body_length = r.value;
})

unfoldable pub parse_chunk_header : List ℕ → Option ChunkHeader
unfolding decode_uleb128 same_bytes
parse_chunk_header bytes =
    if ltb (length bytes) 4
    then none
    else if not (same_bytes (take 4 bytes) chunk_magic)
    then none
    else if ltb (length bytes) 8
    then none
    else elim (get_elem? bytes 8) [
      | none ↦ none
      | some type ↦ header_of type (take 4 (drop 4 bytes)) 9 (decode_uleb128 (drop 9 bytes))
    ]

-- The sum in the test is one of `std::size_t`, and wraps.
unfoldable pub validate_chunk_checksum : ChunkHeader → List ℕ → Bool
unfolding compute_chunk_checksum same_bytes
validate_chunk_checksum header bytes =
    if ltb (length bytes) ((header.body_offset + header.body_length) % 2 ^ 64)
    then false
    else same_bytes header.checksum
        (compute_chunk_checksum (take header.body_length (drop header.body_offset bytes)))

unfoldable pub write_chunk : ℕ → List ℕ → List ℕ → List ℕ
unfolding compute_chunk_checksum encode_uleb128
write_chunk type body out =
    encode_uleb128 (length body)
      (((out ++ chunk_magic) ++ compute_chunk_checksum body) ++ (type ∷ []))
    ++ body
