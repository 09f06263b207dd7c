-- ===== src/DocState/History.antt =====
-- The history of src/doc_state.hpp: the index of its hashes, and the changes before given heads. The
-- queries are `const` and only fill the two caches, which the next query fills in the same way, so
-- they return their answer alone. A set of hashes is a list of them.
pub mod Walk
pub mod Ancestors
pub mod Index
pub mod Before
pub mod Since
use automerge_cpp.Prelude.{
  ℕ, zero, suc, ◌+◌, if◌then◌else◌, leb, ◌==◌, length, drop, filter, get_elem?,
}
use automerge_cpp.Prelude.{Bool, true, false, not, ◌&&◌, Option, none, some, List, [], ◌∷◌, ◌++◌}
use automerge_cpp.Types.{ChangeHash, Change, Op, hash_ord}
use automerge_cpp.OrdMap.{OrdMap, find, assign}
use automerge_cpp.DocState.{DocState, initial, contains}
use automerge_cpp.DocState.Apply.{apply_op}
use automerge_cpp.DocState.Hash.{compute_change_hash}
use automerge_cpp.DocState.History.Walk.{walk}

-- The loop of `ensure_hash_index` over the changes from index `i` on.
unfoldable pub index_changes :
    ℕ → List Change → List ChangeHash → OrdMap ChangeHash ℕ → List ChangeHash × OrdMap ChangeHash ℕ
unfolding assign compute_change_hash
index_changes i [] hashes index = (hashes, index)
index_changes i (change ∷ changes) hashes index =
    let hash = compute_change_hash change in
    index_changes (i + 1) changes (hashes ++ (hash ∷ [])) (assign hash i index)

abbrev pub set_index : List ChangeHash × OrdMap ChangeHash ℕ → DocState → DocState
set_index (hashes, index) s = record s { cached_hashes = hashes; cached_hash_index = index }

unfoldable pub ensure_hash_index : DocState → DocState
unfolding index_changes
ensure_hash_index s =
    if length s.cached_hashes == length s.change_history
    then s
    else set_index
        (index_changes (length s.cached_hashes) (drop (length s.cached_hashes) s.change_history)
          s.cached_hashes s.cached_hash_index)
        s

abbrev pub is_some {ℓ} : {A : Type ℓ} → Option A → Bool
is_some none = false
is_some (some a) = true

-- `cached_hash_index_.contains(hash)`
unfoldable pub indexed : DocState → ChangeHash → Bool
unfolding find
indexed s hash = is_some (find hash s.cached_hash_index)

unfoldable pub has_change_hash : ChangeHash → DocState → Bool
unfolding ensure_hash_index indexed
has_change_hash hash s = indexed (ensure_hash_index s) hash

unfoldable pub all_change_hashes : DocState → List ChangeHash
unfolding ensure_hash_index
all_change_hashes s = (ensure_hash_index s).cached_hashes

-- The change of a hash, by its index.
unfoldable pub change_of : DocState → ChangeHash → Option Change
unfolding find
change_of s hash = elim (find hash s.cached_hash_index) [
  | none ↦ none
  | some i ↦ get_elem? s.change_history i
]

-- `change_history[it->second].deps`, nothing for a hash that is not in the index.
unfoldable pub deps_of : DocState → ChangeHash → List ChangeHash
unfolding change_of
deps_of s hash = elim (change_of s hash) [ none ↦ [] | some change ↦ change.deps ]

unfoldable pub all_deps : List Change → List ChangeHash
all_deps [] = []
all_deps (change ∷ changes) = change.deps ++ all_deps changes

-- More than every hash that can go onto the queue.
abbrev pub search_fuel : List ChangeHash → DocState → ℕ
search_fuel starts s = suc (length starts + length (all_deps s.change_history))

abbrev pub ancestors_of : List ChangeHash → DocState → List ChangeHash
ancestors_of starts s = walk (search_fuel starts s) (deps_of s) starts starts

-- The hashes that `get_changes_since` starts from, the last one first.
unfoldable pub since_starts : DocState → List ChangeHash → List ChangeHash → List ChangeHash
unfolding indexed
since_starts s [] starts = starts
since_starts s (h ∷ heads) starts =
    since_starts s heads (if indexed s h then h ∷ starts else starts)

unfoldable pub get_changes_since : List ChangeHash → DocState → List ChangeHash
unfolding all_change_hashes ensure_hash_index since_starts walk deps_of all_deps contains
get_changes_since [] s = all_change_hashes s
get_changes_since (h ∷ heads) s =
    let s' = ensure_hash_index s in
    let ancestors = ancestors_of (since_starts s' (h ∷ heads) []) s' in
    filter (λ hash. not (contains ancestors hash)) s'.cached_hashes

unfoldable pub missing_from : DocState → List ChangeHash → List ChangeHash → List ChangeHash
unfolding indexed contains
missing_from s [] result = result
missing_from s (h ∷ heads) result =
    missing_from s heads
      (if not (indexed s h) && not (contains result h) then result ++ (h ∷ []) else result)

unfoldable pub get_missing_deps : List ChangeHash → DocState → List ChangeHash
unfolding ensure_hash_index missing_from
get_missing_deps their_heads s = missing_from (ensure_hash_index s) their_heads []

abbrev pub cons_option {ℓ} : {A : Type ℓ} → Option A → List A → List A
cons_option none xs = xs
cons_option (some x) xs = x ∷ xs

unfoldable pub changes_of : DocState → List ChangeHash → List Change
unfolding change_of
changes_of s [] = []
changes_of s (h ∷ hashes) = cons_option (change_of s h) (changes_of s hashes)

unfoldable pub get_changes_by_hash : List ChangeHash → DocState → List Change
unfolding ensure_hash_index changes_of
get_changes_by_hash hashes s = changes_of (ensure_hash_index s) hashes

-- The hashes that `changes_visible_at` starts from, each once.
unfoldable pub visible_starts : DocState → List ChangeHash → List ChangeHash → List ChangeHash
unfolding indexed contains
visible_starts s [] visited = visited
visible_starts s (h ∷ heads) visited =
    visible_starts s heads
      (if indexed s h && not (contains visited h) then h ∷ visited else visited)

unfoldable pub indices_of : DocState → List ChangeHash → List ℕ
unfolding find
indices_of s [] = []
indices_of s (h ∷ hashes) = cons_option (find h s.cached_hash_index) (indices_of s hashes)

abbrev insert_sorted : ℕ → List ℕ → List ℕ
insert_sorted n [] = n ∷ []
insert_sorted n (x ∷ xs) = let rest = insert_sorted n xs in if leb n x then n ∷ x ∷ xs else x ∷ rest

-- `std::ranges::sort` of numbers.
unfoldable pub sort : List ℕ → List ℕ
sort [] = []
sort (n ∷ ns) = insert_sorted n (sort ns)

unfoldable pub changes_visible_at : List ChangeHash → DocState → List ℕ
unfolding ensure_hash_index visible_starts walk deps_of all_deps indices_of sort
changes_visible_at target_heads s =
    let s' = ensure_hash_index s in
    sort (indices_of s' (ancestors_of (visible_starts s' target_heads []) s'))

unfoldable pub apply_ops : List Op → DocState → DocState
unfolding apply_op
apply_ops [] s = s
apply_ops (o ∷ ops) s = apply_ops ops (apply_op o s)

-- The operations of the changes at the given indices, in their order.
unfoldable pub replay : List Change → List ℕ → DocState → DocState
unfolding apply_ops
replay history [] snapshot = snapshot
replay history (i ∷ indices) snapshot = replay history indices (elim (get_elem? history i) [
  | none ↦ snapshot
  | some change ↦ apply_ops change.operations snapshot
])

unfoldable pub rebuild_state_at : List ChangeHash → DocState → DocState
unfolding changes_visible_at replay initial
rebuild_state_at target_heads s =
    replay s.change_history (changes_visible_at target_heads s) (initial s.actor)
