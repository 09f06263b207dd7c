-- ===== src/Transaction/Commit.antt =====
-- `Transaction::commit`: the pending operations become a change of the local actor.
use automerge_cpp.Prelude.{ℕ, filter, not, none, List, [], ◌∷◌, ◌++◌}
use automerge_cpp.Types.{ChangeHash, Change, Op, actor_ord, hash_ord}
use automerge_cpp.OrdMap.{assign}
use automerge_cpp.DocState.{DocState, suc_u64, contains}
use automerge_cpp.DocState.Hash.{compute_change_hash}
use automerge_cpp.Transaction.{Transaction}

-- The change that a commit makes of its operations.
unfoldable pub new_change : DocState → ℕ → List Op → Change
new_change s start_op operations = record {
  actor = s.actor;
  seq = suc_u64 s.local_seq;
  start_op = start_op;
  timestamp = 0;
  message = none;
  deps = s.heads;
  operations = operations;
}

-- The heads without the dependencies of the change, and its hash behind them.
unfoldable pub heads_after : Change → List ChangeHash → List ChangeHash
unfolding contains compute_change_hash
heads_after change heads =
    filter (λ h. not (contains change.deps h)) heads ++ (compute_change_hash change ∷ [])

unfoldable pub commit_change : Change → DocState → DocState
unfolding heads_after assign
commit_change change s = record s {
  local_seq = change.seq;
  heads = heads_after change s.heads;
  clock = assign s.actor change.seq s.clock;
  change_history = s.change_history ++ (change ∷ []);
}

abbrev pub commit_ops : List Op → Transaction → DocState
commit_ops [] tx = tx.state
commit_ops (o ∷ ops) tx = commit_change (new_change tx.state tx.start_op (o ∷ ops)) tx.state

unfoldable pub commit : Transaction → DocState
unfolding new_change commit_change
commit tx = commit_ops tx.pending_ops tx
