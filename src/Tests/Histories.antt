-- ===== src/Tests/Histories.antt =====
-- Changes, histories and clocks at concrete documents.
use automerge_cpp.Prelude.{ℕ, ◌≡◌, ◌↔◌, refl, filter, Bool, true, none, some, [], ◌∷◌}
use automerge_cpp.Types.{
  ActorId, ChangeHash, Change, Op, OpType, Prop, root, scalar, int, hash_ord, actor_ord,
}
use automerge_cpp.Prelude.Order.{compare_bytes}
use automerge_cpp.Crypto.Sha256.{sha256}
use automerge_cpp.OrdMap.{find}
use automerge_cpp.DocState.{DocState, initial, contains}
use automerge_cpp.DocState.Hash.{compute_change_hash, compute_change_hash-contents}
use automerge_cpp.DocState.History.{get_changes_since, has_change_hash}
use automerge_cpp.DocState.History.Before.{IsBefore}
use automerge_cpp.DocState.History.Index.{
  IsCached, last_position, hashes_of, has_change_hash-contains,
}
use automerge_cpp.DocState.History.Since.{get_changes_since_iff}

abbrev pub alice : ActorId
alice = record { bytes = 1 ∷ [] }

abbrev pub bob : ActorId
bob = record { bytes = 2 ∷ [] }

abbrev pub put_name : ℕ → Op
put_name c = record {
  id = record { counter = 1; actor = bob };
  obj = root;
  key = Prop.key (b'n' ∷ []);
  action = OpType.put;
  value = scalar (int c);
  pred = [];
  insert_after = none;
}

abbrev pub bobs_change : Change
bobs_change = record {
  actor = bob;
  seq = 1;
  start_op = 1;
  timestamp = 0;
  message = none;
  deps = [];
  operations = put_name 7 ∷ [];
}

-- The values 7 and 8 have one hash.
compute_change_hash-contents_example :
    compute_change_hash
      (record bobs_change { message = some (b'm' ∷ []); operations = put_name 8 ∷ [] })
    ≡ compute_change_hash bobs_change
compute_change_hash-contents_example =
    compute_change_hash-contents bobs_change (some (b'm' ∷ [])) (put_name 8 ∷ []) refl

-- Alice has not seen Bob's change, and Bob's document has it.
abbrev pub alices : DocState
alices = initial alice

abbrev pub bobs : DocState
bobs = record (initial bob) {
  next_counter = 2;
  change_history = bobs_change ∷ [];
  heads = compute_change_hash bobs_change ∷ [];
  clock = (bob, 1) ∷ [];
  local_seq = 1;
}

pub bobs-IsCached : IsCached bobs
unfolding initial find last_position
bobs-IsCached = record {
  old = [];
  new = bobs_change ∷ [];
  history = refl;
  hashes = refl;
  index = λ h. refl;
}

abbrev pub bobs_hash : ChangeHash
bobs_hash = compute_change_hash bobs_change

-- Two changes more, each on the one before, of which the index does not know yet.
abbrev next_change : ℕ → ChangeHash → Change
next_change n parent = record bobs_change {
  seq = n;
  start_op = n;
  deps = parent ∷ [];
  operations = [];
}

abbrev second_hash : ChangeHash
second_hash = compute_change_hash (next_change 2 bobs_hash)

abbrev three_changes : DocState
three_changes = record bobs {
  change_history = bobs_change ∷ next_change 2 bobs_hash ∷ next_change 3 second_hash ∷ [];
}

three_changes-IsCached : IsCached three_changes
unfolding initial find last_position
three_changes-IsCached = record {
  old = [];
  new = three_changes.change_history;
  history = refl;
  hashes = refl;
  index = λ h. refl;
}

get_changes_since_iff_example :
    (keep : ChangeHash → Bool) × (get_changes_since (second_hash ∷ []) three_changes
      ≡ filter keep (hashes_of three_changes.change_history))
    × ((a : ChangeHash)
        → (keep a ≡ true) ↔ (¬ IsBefore three_changes.change_history (second_hash ∷ []) a))
get_changes_since_iff_example =
    get_changes_since_iff three_changes second_hash [] three_changes-IsCached

-- After the second change, only the third is new.
since_second :
    get_changes_since (second_hash ∷ []) three_changes
    ≡ compute_change_hash (next_change 3 second_hash) ∷ []
unfolding get_changes_since initial compute_change_hash sha256 compare_bytes
since_second = refl

has_change_hash-contains_example :
    has_change_hash bobs_hash bobs ≡ contains (hashes_of bobs.change_history) bobs_hash
has_change_hash-contains_example = has_change_hash-contains bobs bobs_hash bobs-IsCached

-- The digest of "abc" in the standard.
sha256_abc :
    sha256 (b'a' ∷ b'b' ∷ b'c' ∷ [])
    ≡ 0xba ∷ 0x78 ∷ 0x16 ∷ 0xbf ∷ 0x8f ∷ 0x01 ∷ 0xcf ∷ 0xea ∷ 0x41 ∷ 0x41 ∷ 0x40 ∷ 0xde ∷ 0x5d
      ∷ 0xae ∷ 0x22 ∷ 0x23 ∷ 0xb0 ∷ 0x03 ∷ 0x61 ∷ 0xa3 ∷ 0x96 ∷ 0x17 ∷ 0x7a ∷ 0x9c ∷ 0xb4 ∷ 0x10
      ∷ 0xff ∷ 0x61 ∷ 0xf2 ∷ 0x00 ∷ 0x15 ∷ 0xad ∷ []
unfolding sha256
sha256_abc = refl
