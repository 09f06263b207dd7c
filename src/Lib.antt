-- ===== src/Lib.antt =====
-- automerge-cpp, a library of replicated documents (CRDTs): the state of a document and the
-- operations on it, the transactions that change it, and the encodings of its binary format.
--
-- How the parts interact. A document (src/document.cpp) holds a state (src/doc_state.hpp). A
-- transaction (src/transaction.cpp) changes the state and records, for each change, an operation;
-- other replicas take the recorded operations through `apply_op`. Two replicas agree when a
-- recorded operation does elsewhere what the mutation did locally, and when operations that have
-- not seen each other can be applied in any order. A commit makes a change of the operations,
-- which other documents get by `merge` or in the messages of the sync protocol. Its hash
-- (src/crypto/sha256.hpp) names it in their histories, and a Bloom filter
-- (src/sync/bloom_filter.hpp) tells a peer which hashes are there. The binary format writes
-- operations in columns (src/storage/columns), over run-length, delta and boolean encoders
-- (src/encoding), which stand on LEB128 (src/encoding/leb128.hpp); `save` puts the changes of a
-- history into one chunk, and `load` reads them back and replays them.
--
-- Where each part is.
--   Types: include/automerge-cpp/types.hpp, value.hpp, op.hpp, change.hpp.
--   OrdMap: the `std::map` of the program, sorted pairs.
--   DocState: src/doc_state.hpp. `DocState` and `ObjectState` are the structs; MapOps and ListOps have
--     the local operations under their names, Rga has `find_rga_position`, Apply has `apply_op` with
--     one function for each case of its switch.
--   DocState/Registers and below: the entries of a map key under `apply_op`.
--   DocState/Elements: the elements of a list under `apply_op` of puts at an index.
--   DocState/Queries: `object_type`, `object_length` and `resolve_mark_indices`.
--   DocState/Rga/Fresh: where an element with the newest id goes.
--   Transaction: src/transaction.cpp, each mutation under its name.
--   Transaction/Replay and below: mutations against the operations that they record.
--   Encoding/Leb128: src/encoding/leb128.hpp, with its round trips below it.
--   Encoding/Boolean: src/encoding/boolean_encoder.hpp, in Maybe the encoder of optional booleans;
--     Writer and Reader have the lemmas on the encoder and on the decoder.
--   Encoding/Rle: src/encoding/rle.hpp, over a codec of its values; Chunks has the format, Steps and
--     Decoding what the decoder reads of it, Shapes and Writing what the encoder writes of it.
--   Encoding/Delta: src/encoding/delta_encoder.hpp.
--   Crypto/Sha256: src/crypto/sha256.hpp; DocState/Hash: `compute_change_hash`.
--   DocState/History and below: the hash index of src/doc_state.hpp, the queries of the history and
--     `rebuild_state_at`; Walk is the search that they share, and Before says without it which
--     hashes are before given heads.
--   Transaction/Commit: `Transaction::commit`.
--   Document and below: src/document.cpp, `transact`, `apply_changes`, `merge` and `fork`; Invariant
--     has what holds of a document between its operations.
--   Sync/Bloom: src/sync/bloom_filter.hpp, with its lemmas below it.
--   Sync/Protocol: `generate_sync_message` and `receive_sync_message` of src/document.cpp, with the
--     types of include/automerge-cpp/sync_state.hpp.
--   Document/Reads: `values`, the historical reads, cursors, marks and `get_path_impl`, with
--     include/automerge-cpp/cursor.hpp and mark.hpp.
--   Document/Patches: `ops_to_patches`, with include/automerge-cpp/patch.hpp.
--   Sync/State: `SyncState::encode` and `SyncState::decode`.
--   Storage/Serializer, Storage/Deserializer, Storage/Chunk: src/storage/serializer.hpp,
--     deserializer.hpp and chunk.hpp; Storage/Reads has the laws of readers.
--   Storage/Columns: src/storage/columns. Spec and Standard are column_spec.hpp, Raw is raw_column.hpp,
--     Values is value_encoding.hpp, ChangeOps and ReadOps are the two halves of
--     change_op_columns.hpp, Compression is compression.hpp; Cells, Found, Answers, Stored, Fits,
--     Decoders and OpRoundTrip have the steps of the round trip of operations, and
--     ChangeOpsRoundTrip the whole.
--   Storage/ChangeChunk: src/storage/change_chunk.hpp.
--   DocState/ActorTable: `ensure_actor_table` and `actor_table` of src/doc_state.hpp.
--   Document/Save, Document/Load, Document/LoadV1: `save` and `load` of src/document.cpp, and the
--     parsers `parse_v2` and `parse_v1`.
--   Tests: concrete runs, and the theorems at concrete inputs.
--
-- Conventions. A byte is a number below 256, a `std::string` the list of its bytes, `std::byte`
-- arrays the lists of their bytes. An `int64_t` is its 64-bit pattern, so `+` on it is modulo 2 ^
-- 64; where signed overflow is undefined in C++ this is what the usual machines do. A `double` is
-- its bit pattern, since nothing computes with it. An `assert` that fails, or a null object behind
-- one, is `none`. The `unordered_map` of objects is a function, since nothing iterates over it.
-- The operation counter wraps at 2 ^ 64; the theorems that need it ask for one more id to be left.
-- The loops of the LEB128 encoders run on fuel of 10 rounds, enough for 64 bits, as the round
-- trips show; the loop of the boolean decoder has one round more than there are bytes, each of
-- which reads a byte. The search of the history has one round more than there are starts and
-- dependencies, and each hash of these goes onto its queue once. A `std::set` of hashes is a list,
-- of which only the members matter. `std::ranges::sort` by `start_op` leaves the order of equal
-- changes open, so `merge` is modelled over any sort, and its theorems hold for each. The queries
-- of the history are `const` and only fill two caches, which they find again as they left them;
-- they return their answer alone. The counter of `fork` is an argument and a result.
--
-- zlib is a parameter: a run of `deflate` on an input, and one of `inflate` with room for a number of
-- bytes. The loop that gives `inflate` more room has 24 rounds, since the room is four bytes at least
-- and doubles up to 64 MiB. An enumerator that a cast makes of a number without a name is a parameter
-- too. The cache of the actor table is an argument of `save`, beside the state.
--
-- A read past the end of the data, where the test for it wraps, gives what is left of the data.
--
-- Not modelled: locks and the thread pool (the reads and writes are those of one thread), the capacity
-- of vectors and what `reserve` throws, and JSON, which stands on nlohmann::json.
pub mod Prelude
pub mod Types
pub mod OrdMap
pub mod Encoding
pub mod Crypto
pub mod DocState
pub mod Transaction
pub mod Sync
pub mod Storage
pub mod Document
pub mod Tests
