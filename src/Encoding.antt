-- ===== src/Encoding.antt =====
-- src/encoding/*.hpp: variable-length integers, and the encoders of columns on top of them.
pub mod Leb128
pub mod Boolean
pub mod Rle
pub mod Delta
