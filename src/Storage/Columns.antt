-- ===== src/Storage/Columns.antt =====
-- The columns of the binary format, src/storage/columns.
pub mod Spec
pub mod Standard
pub mod Raw
pub mod RawRoundTrip
pub mod Values
pub mod ValueRoundTrip
pub mod ChangeOps
pub mod ReadOps
pub mod Compression
pub mod Found
pub mod Cells
pub mod Answers
pub mod Stored
pub mod OpRoundTrip
pub mod Fits
pub mod Decoders
pub mod ChangeOpsRoundTrip
