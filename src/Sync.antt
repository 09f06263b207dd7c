-- ===== src/Sync.antt =====
-- Synchronisation: the Bloom filter of src/sync, and the protocol of src/document.cpp.
pub mod Bloom
pub mod Protocol
pub mod State
