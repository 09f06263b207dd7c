-- ===== src/Document/LoadV1.antt =====
-- `parse_v1` of src/document.cpp: the format before the chunks. The enumerators of the numbers without
-- a name are parameters.
use automerge_cpp.Prelude.{ℕ, zero, suc, if◌then◌else◌, ◌==◌, get_elem?, map}
use automerge_cpp.Prelude.{Option, none, some, List, [], ◌∷◌}
use automerge_cpp.Types.{
  ActorId, ChangeHash, OpId, ObjType, Value, object, OpType, Op, Change, actor_ord,
}
use automerge_cpp.OrdMap.{OrdMap, assign}
use automerge_cpp.DocState.Hash.{compute_change_hash}
use automerge_cpp.Storage.Deserializer.{
  Deserializer, Reader, ◌>>=◌, pure, pure_option, mapped, read_u8, read_uleb128, read_sleb128,
  read_string, read_actor_id, read_change_hash, read_op_id, read_obj_id, read_prop, read_value,
  ReadValue, value, unnamed,
}

pub record ParsedDocData : Type 0 where
  pub local_actor : ActorId
  pub next_counter : ℕ
  pub local_seq : ℕ
  pub changes : List Change
  pub heads : List ChangeHash
  pub clock : OrdMap ActorId ℕ

-- The entry of a table at an index.
abbrev pub entry : List ActorId → ℕ → Reader ActorId
entry table i = pure_option (get_elem? table i)

unfoldable read_actors : ℕ → Reader (List ActorId)
read_actors zero = pure []
read_actors (suc n) = do actor ← read_actor_id; actors ← read_actors n; pure (actor ∷ actors)

unfoldable pub read_hash_list : ℕ → Reader (List ChangeHash)
read_hash_list zero = pure []
read_hash_list (suc n) = do h ← read_change_hash; hashes ← read_hash_list n; pure (h ∷ hashes)

unfoldable read_clock : List ActorId → ℕ → OrdMap ActorId ℕ → Reader (OrdMap ActorId ℕ)
read_clock table zero clock = pure clock
read_clock table (suc n) clock = do
  actor ← read_uleb128 >>= entry table
  seq ← read_uleb128
  read_clock table n (assign actor seq clock)

-- A value behind a byte that is 1.
abbrev read_if_one : {A : Type 0} → Reader A → Reader (Option A)
read_if_one r = do flag ← read_u8; if flag == 1 then mapped some r else pure none

unfoldable read_preds : List ActorId → ℕ → Reader (List OpId)
read_preds table zero = pure []
read_preds table (suc n) = do p ← read_op_id table; pred ← read_preds table n; pure (p ∷ pred)

-- The hash of the last change of each actor.
unfoldable pub last_hashes : List Change → OrdMap ActorId ChangeHash → OrdMap ActorId ChangeHash
last_hashes [] hashes = hashes
last_hashes (c ∷ changes) hashes =
    last_hashes changes (assign c.actor (compute_change_hash c) hashes)

abbrev second : ActorId × ChangeHash → ChangeHash
second (actor, h) = h

module _ (unnamed_type : ℕ → ObjType) (unnamed_op : ℕ → OpType) where
  abbrev named_value : ReadValue → Value
  named_value (value v) = v
  named_value (unnamed n) = object (unnamed_type n)

  -- `static_cast<OpType>`
  abbrev op_type : ℕ → OpType
  op_type n =
      if n == 0
      then OpType.put
      else if n == 1
      then OpType.del
      else if n == 2
      then OpType.insert
      else if n == 3
      then OpType.make_object
      else if n == 4
      then OpType.increment
      else if n == 5
      then OpType.splice_text
      else if n == 6
      then OpType.mark
      else unnamed_op n

  unfoldable pub read_op : List ActorId → Reader Op
  unfolding read_preds
  read_op table = do
    id ← read_op_id table
    obj ← read_obj_id table
    at ← read_prop
    action ← read_u8
    v ← read_value
    num_pred ← read_uleb128
    pred ← read_preds table num_pred
    insert_after ← read_if_one (read_op_id table)
    pure (record {
      id = id;
      obj = obj;
      key = at;
      action = op_type action;
      value = named_value v;
      pred = pred;
      insert_after = insert_after;
    })

  unfoldable pub read_ops : List ActorId → ℕ → Reader (List Op)
  read_ops table zero = pure []
  read_ops table (suc n) = do o ← read_op table; ops ← read_ops table n; pure (o ∷ ops)

  unfoldable pub read_change : List ActorId → Reader Change
  read_change table = do
    actor ← read_uleb128 >>= entry table
    seq ← read_uleb128
    start_op ← read_uleb128
    timestamp ← read_sleb128
    message ← read_if_one read_string
    num_deps ← read_uleb128
    deps ← read_hash_list num_deps
    num_ops ← read_uleb128
    operations ← read_ops table num_ops
    pure (record {
      actor = actor;
      seq = seq;
      start_op = start_op;
      timestamp = timestamp;
      message = message;
      deps = deps;
      operations = operations;
    })

  unfoldable pub read_changes : List ActorId → ℕ → Reader (List Change)
  read_changes table zero = pure []
  read_changes table (suc n) = do
    change ← read_change table
    changes ← read_changes table n
    pure (change ∷ changes)

  -- The heads that are written are read and not used.
  unfoldable pub read_document : Reader ParsedDocData
  unfolding read_actors read_clock
  read_document = do
    num_actors ← read_uleb128
    table ← read_actors num_actors
    local_actor ← read_uleb128 >>= entry table
    next_counter ← read_uleb128
    local_seq ← read_uleb128
    num_changes ← read_uleb128
    changes ← read_changes table num_changes
    num_heads ← read_uleb128
    heads ← read_hash_list num_heads
    num_clock ← read_uleb128
    clock ← read_clock table num_clock []
    pure (record {
      local_actor = local_actor;
      next_counter = next_counter;
      local_seq = local_seq;
      changes = changes;
      heads = map second (last_hashes changes []);
      clock = clock;
    })

  abbrev parsed : Option (ParsedDocData × Deserializer) → Option ParsedDocData
  parsed none = none
  parsed (some (p, d)) = some p

  -- Behind the magic bytes and the version, which `load` has seen that there are.
  unfoldable pub parse_v1 : List ℕ → Option ParsedDocData
  parse_v1 bytes = parsed (read_document (record { input = bytes; pos = 5 }))
