-- ===== src/Tests/Syncs.antt =====
-- Bloom filters and sync messages at concrete documents.
use automerge_cpp.Prelude.{◌+◌, ◌≤◌, ◌≡◌, ◌↔◌, ◌⊎◌, refl, arith, length, true, none, some, [], ◌∷◌}
use automerge_cpp.Prelude.Order.{compare_bytes, eqb_refl}
use automerge_cpp.Types.{
  Change, Op, OpType, Prop, ObjType, compare_obj_id, scalar, int, hash_ord, ObjId, op,
}
use automerge_cpp.DocState.{DocState, ObjectState, initial, contains, get_object, set_object}
use automerge_cpp.DocState.Elements.{elements}
use automerge_cpp.DocState.History.{ensure_hash_index, get_changes_since}
use automerge_cpp.DocState.History.Walk.{Has}
use automerge_cpp.Document.Clock.{max_seq}
use automerge_cpp.Document.Invariant.{IsConsistent}
use automerge_cpp.Sync.Bloom.{BloomFilter, contains_hash, from_hashes, to_bytes, from_bytes}
use automerge_cpp.Sync.Bloom.Members.{contains_hash-from_hashes}
use automerge_cpp.Sync.Bloom.Bytes.{from_bytes-to_bytes}
use automerge_cpp.Sync.Protocol.{
  Have, SyncMessage, new_sync_state, get_hashes_to_send, bloom_filters, last_sync_heads,
  receive_sync_message,
}
use automerge_cpp.Sync.Protocol.Send.{IsDue, get_hashes_to_send_iff}
use automerge_cpp.Sync.Protocol.Receive.{
  receive_sync_message-IsConsistent, receive_twice_duplicates,
}
use automerge_cpp.Tests.Histories.{alice, bob, bobs_change, alices, bobs, bobs_hash}
use automerge_cpp.Tests.Merges.{alices-IsConsistent}

bob_has : contains (bobs_hash ∷ []) bobs_hash ≡ true
unfolding contains
bob_has = ground (arith, eqb_refl bobs_hash)

contains_hash-from_hashes_example : contains_hash bobs_hash (from_hashes (bobs_hash ∷ [])) ≡ true
contains_hash-from_hashes_example =
    contains_hash-from_hashes bobs_hash (bobs_hash ∷ []) (omega arith) bob_has

abbrev small_filter : BloomFilter
small_filter = record {
  num_entries = 1;
  num_bits_per_entry = 10;
  num_probes = 7;
  bits = 5 ∷ 128 ∷ [];
}

from_bytes-to_bytes_example : from_bytes (to_bytes small_filter) ≡ some small_filter
from_bytes-to_bytes_example =
    from_bytes-to_bytes small_filter (omega arith) (omega arith) (omega arith) (omega arith)

-- The peer has nothing.
abbrev nothing : Have
nothing = record { last_sync = []; bloom_bytes = [] }

get_hashes_to_send_iff_example : Has (get_hashes_to_send bobs (nothing ∷ []) []) bobs_hash ↔ (
    Has [] bobs_hash
    ⊎ IsDue
        (ensure_hash_index bobs)
        (bloom_filters (nothing ∷ []))
        (get_changes_since (last_sync_heads (nothing ∷ [])) bobs)
        bobs_hash)
get_hashes_to_send_iff_example = get_hashes_to_send_iff bobs nothing [] [] bobs_hash

abbrev from_bob : SyncMessage
from_bob = record { heads = bobs_hash ∷ []; need = []; have = []; changes = bobs_change ∷ [] }

own_changes : max_seq alices.actor from_bob.changes ≤ alices.local_seq
unfolding max_seq initial compare_bytes
own_changes = omega arith

receive_sync_message-IsConsistent_example :
    IsConsistent (receive_sync_message from_bob alices new_sync_state).0
receive_sync_message-IsConsistent_example =
    receive_sync_message-IsConsistent from_bob alices new_sync_state own_changes alices-IsConsistent

abbrev list_id : ObjId
list_id = op (record { counter = 1; actor = alice })

abbrev no_elements : ObjectState
no_elements = record { type = ObjType.list; map_entries = []; list_elements = []; marks = [] }

abbrev with_list : DocState
with_list = set_object list_id no_elements alices

abbrev bobs_insert : Op
bobs_insert = record {
  id = record { counter = 2; actor = bob };
  obj = list_id;
  key = Prop.index 0;
  action = OpType.insert;
  value = scalar (int 7);
  pred = [];
  insert_after = none;
}

abbrev inserting : Change
inserting = record bobs_change { operations = bobs_insert ∷ [] }

abbrev insert_message : SyncMessage
insert_message = record from_bob { changes = inserting ∷ [] }

list_there : get_object list_id with_list ≡ some no_elements
unfolding get_object set_object initial compare_obj_id compare_bytes
list_there = refl

receive_twice_duplicates_example :
    (let (s', sync') = receive_sync_message insert_message with_list new_sync_state in
      length (elements list_id (receive_sync_message insert_message s' sync').0))
    ≡ length (elements list_id with_list) + 2
receive_twice_duplicates_example =
    receive_twice_duplicates insert_message inserting bobs_insert with_list new_sync_state refl refl
      refl list_there
