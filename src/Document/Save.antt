-- ===== src/Document/Save.antt =====
-- `Document::save` of src/document.cpp. zlib is a parameter, and the table of the actors is a cache
-- beside the state.
use automerge_cpp.Prelude.{ℕ, ◌+◌, if◌then◌else◌, length}
use automerge_cpp.Prelude.{Option, List, [], ◌∷◌, ◌++◌}
use automerge_cpp.Prelude.Order.{eqb}
use automerge_cpp.Types.{ActorId, ChangeHash, Change, actor_ord}
use automerge_cpp.OrdMap.{OrdMap}
use automerge_cpp.DocState.{DocState}
use automerge_cpp.DocState.ActorTable.{ActorTable, actor_table}
use automerge_cpp.Encoding.Leb128.{encode_uleb128}
use automerge_cpp.Storage.Serializer.{actor_index, write_actor_id, write_change_hash}
use automerge_cpp.Storage.Chunk.{write_chunk}
use automerge_cpp.Storage.ChangeChunk.{serialize_change_body}

-- `ActorId::size`, and the byte of `ChunkType::document`.
abbrev pub actor_size : ℕ
actor_size = 16

abbrev pub document_chunk : ℕ
document_chunk = 0

unfoldable pub write_actors : List ActorId → List ℕ → List ℕ
write_actors [] body = body
write_actors (actor ∷ table) body =
    write_actors table (write_actor_id actor (encode_uleb128 actor_size body))

unfoldable pub write_heads : List ChangeHash → List ℕ → List ℕ
write_heads [] body = body
write_heads (h ∷ heads) body = write_heads heads (write_change_hash h body)

-- The index of an actor, and nothing for one that is not in the table.
unfoldable pub write_index : ActorId → List ActorId → ℕ → List ℕ → List ℕ
write_index actor [] i body = body
write_index actor (a ∷ table) i body =
    let rest = write_index actor table (i + 1) body in
    if eqb a actor then encode_uleb128 i body else rest

unfoldable pub write_clock : OrdMap ActorId ℕ → List ActorId → List ℕ → List ℕ
write_clock [] table body = body
write_clock ((actor, seq) ∷ clock) table body =
    write_clock clock table (encode_uleb128 seq (write_index actor table 0 body))

module _ (deflate : List ℕ → Option (List ℕ)) where
  unfoldable pub write_changes : List Change → List ActorId → List ℕ → List ℕ
  write_changes [] table body = body
  write_changes (change ∷ changes) table body =
      let change_body = serialize_change_body deflate change table in
      write_changes changes table (encode_uleb128 (length change_body) body ++ change_body)

  -- The document's body, behind the table.
  unfoldable pub save_body : DocState → List ActorId → List ℕ
  save_body s table =
      let body = write_actors table (encode_uleb128 (length table) []) in
      let body = write_heads s.heads (encode_uleb128 (length s.heads) body) in
      let body =
        write_changes s.change_history table (encode_uleb128 (length s.change_history) body) in
      let body = encode_uleb128 (actor_index s.actor table 0) body in
      let body = encode_uleb128 s.local_seq (encode_uleb128 s.next_counter body) in
      write_clock s.clock table (encode_uleb128 (length s.clock) body)

  unfoldable pub save : DocState → ActorTable → List ℕ
  save s cache = write_chunk document_chunk (save_body s (actor_table s cache)) []
