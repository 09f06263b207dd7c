-- ===== src/Document.antt =====
-- src/document.cpp: a document is its state; the lock and the thread pool do not change what one
-- thread does, and are left out.
pub mod Frame
pub mod Clock
pub mod Merge
pub mod Invariant
pub mod Reads
pub mod Patches
pub mod Save
pub mod LoadV1
pub mod Load
use automerge_cpp.Prelude.{
  ℕ, ◌+◌, ◌%◌, ◌/◌, ◌^◌, ◌≤◌, take, false, max, ltb, filter, Bool, true, not, Option, none, some,
  List, [], ◌∷◌, ◌++◌,
}
use mathlib.Core.List.{Perm}
use automerge_cpp.Prelude.Order.{eqb}
use automerge_cpp.Types.{ActorId, ChangeHash, Change, actor_ord, hash_ord}
use automerge_cpp.OrdMap.{OrdMap, find, assign}
use automerge_cpp.DocState.{DocState}
use automerge_cpp.DocState.Hash.{compute_change_hash, le64}
use automerge_cpp.DocState.History.{apply_ops}
use automerge_cpp.Transaction.{Transaction, begin}
use automerge_cpp.Transaction.Commit.{commit}

-- `transact`: what `fn` does with the transaction is a function, `none` if an `assert` fails in it.
unfoldable pub transact : (Transaction → Option Transaction) → DocState → Option DocState
unfolding begin commit
transact fn s = elim (fn (begin s)) [ none ↦ none | some tx ↦ some (commit tx) ]

-- `clock[actor]`, which is 0 for a new actor.
unfoldable pub seq_of : ActorId → OrdMap ActorId ℕ → ℕ
unfolding find
seq_of actor clock = elim (find actor clock) [ none ↦ 0 | some seq ↦ seq ]

-- `std::erase(heads, dep)` for each dependency.
unfoldable pub erase_all : List ChangeHash → List ChangeHash → List ChangeHash
erase_all [] heads = heads
erase_all (dep ∷ deps) heads = erase_all deps (filter (λ h. not (eqb h dep)) heads)

-- The body of the loop of `apply_changes`, which `merge` and `receive_sync_message` repeat.
unfoldable pub apply_change : Change → DocState → DocState
unfolding apply_ops seq_of erase_all compute_change_hash assign
apply_change change s =
    let s' = apply_ops change.operations s in
    record s' {
      clock = assign change.actor (max (seq_of change.actor s'.clock) change.seq) s'.clock;
      heads = erase_all change.deps s'.heads ++ (compute_change_hash change ∷ []);
      change_history = s'.change_history ++ (change ∷ []);
    }

unfoldable pub apply_changes : List Change → DocState → DocState
unfolding apply_change
apply_changes [] s = s
apply_changes (change ∷ changes) s = apply_changes changes (apply_change change s)

-- Whether the clock covers a change.
unfoldable pub is_known : DocState → Change → Bool
unfolding find
is_known s change = elim (find change.actor s.clock) [
  | none ↦ false
  | some seq ↦ not (ltb seq change.seq)
]

-- The changes of the other document that this one has not seen.
unfoldable pub missing : List Change → DocState → List Change
unfolding is_known
missing changes s = filter (λ change. not (is_known s change)) changes

abbrev pub IsSortedByStart : List Change → Type 0
IsSortedByStart [] = Unit
IsSortedByStart (a ∷ []) = Unit
IsSortedByStart (a ∷ b ∷ l) = (a.start_op ≤ b.start_op) × IsSortedByStart (b ∷ l)

-- `std::ranges::sort` by `start_op`. Its order of changes with the same `start_op` is not specified,
-- so it is any sort.
pub record Sort : Type 0 where
  pub sort : List Change → List Change
  pub sort-perm : (changes : List Change) → Perm (sort changes) changes
  pub sort-IsSortedByStart : (changes : List Change) → IsSortedByStart (sort changes)

unfoldable pub merge : Sort → DocState → DocState → DocState
unfolding missing apply_changes
merge by other s = apply_changes (by.sort (missing other.change_history s)) s

-- `fork`: the counter of the process is stamped over the last 8 bytes of the actor, the lowest byte
-- first, and moves on.
unfoldable pub fork : ℕ → DocState → DocState × ℕ
unfolding le64
fork fork_counter s = (
  record s { actor = record { bytes = take 8 s.actor.bytes ++ le64 fork_counter } },
  (fork_counter + 1) % 2 ^ 64,
)

-- `get_changes` and `get_heads`
unfoldable pub get_changes : DocState → List Change
get_changes s = s.change_history

unfoldable pub get_heads : DocState → List ChangeHash
get_heads s = s.heads
