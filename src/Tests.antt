-- ===== src/Tests.antt =====
-- Concrete runs, and the theorems at concrete inputs.
mod Documents
mod Transactions
mod Encodings
mod Histories
mod Sorting
mod Merges
mod Syncs
mod Storages
mod Reading
mod Columns
mod Changes
