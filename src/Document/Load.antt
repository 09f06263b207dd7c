-- ===== src/Document/Load.antt =====
-- `Document::load` of src/document.cpp, with `parse_v2`. zlib, and the enumerators of the numbers
-- without a name, are parameters.
use automerge_cpp.Prelude.{ℕ, zero, suc, if◌then◌else◌, ltb, ◌==◌, length, drop, take}
use automerge_cpp.Prelude.{not, Option, none, some, List, [], ◌∷◌}
use automerge_cpp.Types.{ActorId, ObjType, OpType, Change, actor_ord}
use automerge_cpp.OrdMap.{OrdMap, assign}
use automerge_cpp.DocState.{DocState, initial}
use automerge_cpp.DocState.History.{apply_ops}
use automerge_cpp.Storage.Deserializer.{
  Deserializer, Reader, ◌>>=◌, pure, pure_option, fail, read_bytes, read_actor_id,
}
use automerge_cpp.Storage.Chunk.{
  ChunkHeader, chunk_magic, same_bytes, parse_chunk_header, validate_chunk_checksum,
}
use automerge_cpp.Storage.Columns.Raw.{read_more}
use automerge_cpp.Storage.Columns.Compression.{Inflated}
use automerge_cpp.Storage.ChangeChunk.{parse_change_chunk}
use automerge_cpp.Document.Save.{actor_size, document_chunk}
use automerge_cpp.Document.LoadV1.{ParsedDocData, parse_v1, entry, read_hash_list}

unfoldable pub read_actors : ℕ → Reader (List ActorId)
read_actors zero = pure []
read_actors (suc n) = do
  actor_len ← read_more
  actor ← if actor_len == actor_size then read_actor_id else fail
  actors ← read_actors n
  pure (actor ∷ actors)

-- The entries of the clock are assigned in order.
unfoldable pub read_clock : List ActorId → ℕ → OrdMap ActorId ℕ → Reader (OrdMap ActorId ℕ)
read_clock table zero clock = pure clock
read_clock table (suc n) clock = do
  actor ← read_more >>= entry table
  seq ← read_more
  read_clock table n (assign actor seq clock)

module _ (inflate : List ℕ → ℕ → Inflated) (unnamed : ℕ → ObjType) where
  unfoldable pub read_changes : List ActorId → ℕ → Reader (List Change)
  read_changes table zero = pure []
  read_changes table (suc n) = do
    change_len ← read_more
    body ← read_bytes change_len
    change ← pure_option (parse_change_chunk inflate unnamed table body)
    changes ← read_changes table n
    pure (change ∷ changes)

  unfoldable pub read_document : Reader ParsedDocData
  read_document = do
    num_actors ← read_more
    table ← read_actors num_actors
    num_heads ← read_more
    heads ← read_hash_list num_heads
    num_changes ← read_more
    changes ← read_changes table num_changes
    local_actor ← read_more >>= entry table
    next_counter ← read_more
    local_seq ← read_more
    num_clock ← read_more
    clock ← read_clock table num_clock []
    pure (record {
      local_actor = local_actor;
      next_counter = next_counter;
      local_seq = local_seq;
      changes = changes;
      heads = heads;
      clock = clock;
    })

  abbrev parsed : Option (ParsedDocData × Deserializer) → Option ParsedDocData
  parsed none = none
  parsed (some (p, d)) = some p

  abbrev parse_body : ChunkHeader → List ℕ → Option ParsedDocData
  parse_body header bytes =
      if not (validate_chunk_checksum header bytes)
      then none
      else if not (header.type == document_chunk)
      then none
      else parsed (
          read_document
            (record { input = take header.body_length (drop header.body_offset bytes); pos = 0 }))

  unfoldable pub parse_v2 : List ℕ → Option ParsedDocData
  parse_v2 bytes = elim (parse_chunk_header bytes) [
    | none ↦ none
    | some header ↦ parse_body header bytes
  ]

  unfoldable pub apply_all : List Change → DocState → DocState
  apply_all [] s = s
  apply_all (change ∷ changes) s = apply_all changes (apply_ops change.operations s)

  -- A new document with what was parsed, behind a replay of all operations.
  unfoldable pub document_of : ParsedDocData → DocState
  document_of p =
      let s = initial p.local_actor in
      let s' =
        apply_all p.changes (record s { next_counter = p.next_counter; local_seq = p.local_seq }) in
      record s' { change_history = p.changes; heads = p.heads; clock = p.clock }

  module _ (unnamed_op : ℕ → OpType) where
    -- The first format that reads the data.
    unfoldable pub parse : List ℕ → Option ParsedDocData
    parse bytes = elim (parse_v2 bytes) [
      | none ↦ parse_v1 unnamed unnamed_op bytes
      | some p ↦ some p
    ]

    unfoldable pub load : List ℕ → Option DocState
    load bytes =
        let loaded : Option DocState = elim (parse bytes) [
          | none ↦ none
          | some p ↦ some (document_of p)
        ] in
        if ltb (length bytes) 5
        then none
        else if not (same_bytes (take 4 bytes) chunk_magic)
        then none
        else loaded
