-- ===== src/Crypto.antt =====
-- src/crypto: hashing.
pub mod Sha256
