-- ===== src/Storage.antt =====
-- The binary format, src/storage.
pub mod Serializer
pub mod Deserializer
pub mod Reads
pub mod RoundTrip
pub mod Chunk
pub mod Columns
pub mod ChangeChunk
