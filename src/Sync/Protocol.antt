-- ===== src/Sync/Protocol.antt =====
-- The sync protocol of src/document.cpp, with the types of include/automerge-cpp/sync_state.hpp. A
-- `std::set` of hashes is a list of them, of which only the members matter.
pub mod Send
pub mod Receive
use automerge_cpp.Prelude.{
  ℕ, suc, ◌+◌, if◌then◌else◌, filter, all, length, ◌==◌, Bool, true, false, not, ◌&&◌, ◌||◌,
}
use automerge_cpp.Prelude.{Option, none, some, List, [], ◌∷◌, ◌++◌, map}
use automerge_cpp.Prelude.Order.{eqb, lessb}
use automerge_cpp.Types.{ChangeHash, Change, hash_ord}
use automerge_cpp.OrdMap.{OrdMap, find, assign}
use automerge_cpp.DocState.{DocState, contains}
use automerge_cpp.DocState.MapOps.{or_empty}
use automerge_cpp.DocState.History.{
  ensure_hash_index, indexed, has_change_hash, deps_of, ancestors_of, since_starts,
  get_changes_since, get_missing_deps, get_changes_by_hash,
}
use automerge_cpp.DocState.History.Walk.{walk}
use automerge_cpp.Document.{apply_changes}
use automerge_cpp.Sync.Bloom.{
  BloomFilter, empty_filter, contains_hash, from_hashes, to_bytes, from_bytes, is_nil,
}

pub record Have : Type 0 where
  pub last_sync : List ChangeHash
  pub bloom_bytes : List ℕ

pub record SyncMessage : Type 0 where
  pub heads : List ChangeHash
  pub need : List ChangeHash
  pub have : List Have
  pub changes : List Change

pub record SyncState : Type 0 where
  pub shared_heads : List ChangeHash
  pub last_sent_heads : List ChangeHash
  pub their_heads : Option (List ChangeHash)
  pub their_need : Option (List ChangeHash)
  pub their_have : Option (List Have)
  pub sent_hashes : List ChangeHash
  pub in_flight : Bool
  pub have_responded : Bool

abbrev pub new_sync_state : SyncState
new_sync_state = record {
  shared_heads = [];
  last_sent_heads = [];
  their_heads = none;
  their_need = none;
  their_have = none;
  sent_hashes = [];
  in_flight = false;
  have_responded = false;
}

-- `==` of two vectors of hashes.
unfoldable pub same_hashes : List ChangeHash → List ChangeHash → Bool
same_hashes [] [] = true
same_hashes (x ∷ xs) (y ∷ ys) = eqb x y && same_hashes xs ys
same_hashes _ _ = false

unfoldable pub last_sync_heads : List Have → List ChangeHash
last_sync_heads [] = []
last_sync_heads (h ∷ have) = h.last_sync ++ last_sync_heads have

abbrev pub filter_or_empty : Option BloomFilter → BloomFilter
filter_or_empty none = empty_filter
filter_or_empty (some f) = f

unfoldable pub bloom_filters : List Have → List BloomFilter
unfolding from_bytes
bloom_filters have = map (λ h. filter_or_empty (from_bytes h.bloom_bytes)) have

-- `dependents[dep].push_back(h)` for each dependency.
unfoldable pub add_dependents :
    ChangeHash
    → List ChangeHash
    → OrdMap ChangeHash (List ChangeHash)
    → OrdMap ChangeHash (List ChangeHash)
unfolding find assign
add_dependents h [] dependents = dependents
add_dependents h (dep ∷ deps) dependents =
    add_dependents h deps (assign dep (or_empty (find dep dependents) ++ (h ∷ [])) dependents)

unfoldable pub dependents_map :
    DocState
    → List ChangeHash
    → OrdMap ChangeHash (List ChangeHash)
    → OrdMap ChangeHash (List ChangeHash)
unfolding deps_of add_dependents
dependents_map s [] dependents = dependents
dependents_map s (h ∷ hashes) dependents =
    dependents_map s hashes (add_dependents h (deps_of s h) dependents)

unfoldable pub in_any : List BloomFilter → ChangeHash → Bool
unfolding contains_hash
in_any [] h = false
in_any (f ∷ filters) h = contains_hash h f || in_any filters h

-- What is sent of `hashes`: what no filter has, and all that depends on it.
unfoldable pub hashes_to_send : DocState → List BloomFilter → List ChangeHash → List ChangeHash
unfolding in_any dependents_map find walk
hashes_to_send s filters hashes =
    let dependents = dependents_map s hashes [] in
    let starts = filter (λ h. not (in_any filters h)) hashes in
    walk (suc (length starts + length hashes)) (λ h. or_empty (find h dependents)) starts starts

unfoldable pub send_list : List ChangeHash → List ChangeHash → List ChangeHash → List ChangeHash
unfolding contains
send_list to_send hashes their_need =
    filter (λ h. not (contains to_send h)) their_need ++ filter (λ h. contains to_send h) hashes

unfoldable pub get_hashes_to_send : DocState → List Have → List ChangeHash → List ChangeHash
unfolding last_sync_heads bloom_filters get_changes_since ensure_hash_index hashes_to_send send_list
get_hashes_to_send s [] their_need = their_need
get_hashes_to_send s (have ∷ their_have) their_need =
    let hashes = get_changes_since (last_sync_heads (have ∷ their_have)) s in
    send_list (hashes_to_send (ensure_hash_index s) (bloom_filters (have ∷ their_have)) hashes)
      hashes their_need

-- The hashes to send that have not been sent, if the peer has told what it has and needs.
unfoldable pub unsent_hashes : DocState → SyncState → List ChangeHash
unfolding get_hashes_to_send contains
unsent_hashes s sync = elim sync.their_have [
  | none ↦ []
  | some have ↦ elim sync.their_need [
    | none ↦ []
    | some need ↦ filter (λ h. not (contains sync.sent_hashes h)) (get_hashes_to_send s have need)
  ]
]

abbrev pub hashes_or_empty : Option (List ChangeHash) → List ChangeHash
hashes_or_empty none = []
hashes_or_empty (some l) = l

unfoldable pub our_need : DocState → SyncState → List ChangeHash
unfolding get_missing_deps
our_need s sync = elim sync.their_heads [ none ↦ [] | some heads ↦ get_missing_deps heads s ]

unfoldable pub our_have : DocState → SyncState → List Have
unfolding our_need get_changes_since from_hashes to_bytes contains
our_have s sync =
    if all (λ h. contains (hashes_or_empty sync.their_heads) h) (our_need s sync)
    then (record {
      last_sync = sync.shared_heads;
      bloom_bytes = to_bytes (from_hashes (get_changes_since sync.shared_heads s));
    }
        ∷ [])
    else []

abbrev pub heads_equal : Option (List ChangeHash) → List ChangeHash → Bool
heads_equal none heads = false
heads_equal (some theirs) heads = same_hashes theirs heads

unfoldable pub generate_sync_message : DocState → SyncState → Option SyncMessage × SyncState
unfolding our_need our_have unsent_hashes get_changes_by_hash same_hashes
generate_sync_message s sync =
    let unsent = unsent_hashes s sync in
    let changes_to_send = get_changes_by_hash unsent s in
    let sent = record sync { sent_hashes = sync.sent_hashes ++ unsent } in
    let quiet = same_hashes sync.last_sent_heads s.heads && sync.have_responded in
    let synced = heads_equal sync.their_heads s.heads && is_nil changes_to_send in
    if quiet && (synced || sync.in_flight) then (none, sent) else (
      some (record {
        heads = s.heads;
        need = our_need s sync;
        have = our_have s sync;
        changes = changes_to_send;
      }),
      record sent { have_responded = true; last_sent_heads = s.heads; in_flight = true },
    )

abbrev insert_hash : ChangeHash → List ChangeHash → List ChangeHash
insert_hash h [] = h ∷ []
insert_hash h (x ∷ xs) = let rest = insert_hash h xs in if lessb x h then x ∷ rest else h ∷ x ∷ xs

-- `std::ranges::sort` of hashes.
unfoldable pub sort_hashes : List ChangeHash → List ChangeHash
sort_hashes [] = []
sort_hashes (h ∷ hs) = insert_hash h (sort_hashes hs)

-- The known heads join the shared ones.
unfoldable pub add_new : List ChangeHash → List ChangeHash → List ChangeHash
unfolding contains
add_new [] shared = shared
add_new (h ∷ known) shared =
    add_new known (if contains shared h then shared else shared ++ (h ∷ []))

-- `sent_hashes_` without the ancestors of the heads that the peer has acknowledged.
unfoldable pub trim_sent : DocState → List ChangeHash → List ChangeHash → List ChangeHash
unfolding ensure_hash_index since_starts walk deps_of contains
trim_sent s [] sent = sent
trim_sent s (h ∷ heads) sent =
    let s' = ensure_hash_index s in
    let ancestors = ancestors_of (since_starts s' (h ∷ heads) []) s' in
    filter (λ x. not (contains ancestors x)) sent

abbrev pub known_heads : DocState → List ChangeHash → List ChangeHash
known_heads s heads = filter (λ h. has_change_hash h s) heads

abbrev pub share_heads : DocState → List ChangeHash → SyncState → SyncState
share_heads s heads sync =
    let known = known_heads s heads in
    if length known == length heads
    then (record sync {
      shared_heads = heads;
      last_sent_heads = if is_nil heads then [] else sync.last_sent_heads;
      sent_hashes = if is_nil heads then [] else sync.sent_hashes;
    })
    else (record sync { shared_heads = sort_hashes (add_new known sync.shared_heads) })

unfoldable pub receive_sync_message : SyncMessage → DocState → SyncState → DocState × SyncState
unfolding apply_changes trim_sent has_change_hash sort_hashes add_new
receive_sync_message message s sync =
    let s' = apply_changes message.changes s in
    let acked = record sync {
      in_flight = false;
      shared_heads = if is_nil message.changes then sync.shared_heads else s'.heads;
      sent_hashes = trim_sent s' message.heads sync.sent_hashes;
    } in
    (
      s',
      record (share_heads s' message.heads acked) {
        their_have = some message.have;
        their_heads = some message.heads;
        their_need = some message.need;
      },
    )
