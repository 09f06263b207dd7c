-- ===== src/Tests/Merges.antt =====
-- Merges and commits at concrete documents.
use automerge_cpp.Prelude.{suc, ◌^◌, ◌≤◌, ◌<◌, ◌≡◌, arith, [], ◌∷◌}
use automerge_cpp.Prelude.Order.{compare_bytes}
use automerge_cpp.Types.{hash_ord, actor_ord}
use automerge_cpp.DocState.{initial}
use automerge_cpp.Transaction.{Transaction, begin}
use automerge_cpp.Transaction.Commit.{commit}
use automerge_cpp.Document.{merge}
use automerge_cpp.Document.Clock.{max_seq}
use automerge_cpp.Document.Merge.{merge_idempotent}
use automerge_cpp.Document.Invariant.{
  IsConsistent, initial-IsConsistent, commit-IsConsistent, merge-IsConsistent,
}
use automerge_cpp.Tests.Histories.{alice, put_name, alices, bobs}
use automerge_cpp.Tests.Sorting.{by_insertion}

abbrev pub alices-IsConsistent : IsConsistent alices
alices-IsConsistent = initial-IsConsistent alice

merge_idempotent_example :
    merge by_insertion bobs (merge by_insertion bobs alices) ≡ merge by_insertion bobs alices
merge_idempotent_example = merge_idempotent by_insertion bobs alices

abbrev writing : Transaction
writing = record (begin alices) { pending_ops = put_name 7 ∷ [] }

alices_begin : IsConsistent writing.state
unfolding begin
alices_begin = alices-IsConsistent

alices_room : suc writing.state.local_seq < 2 ^ 64
unfolding begin initial
alices_room = omega arith

commit-IsConsistent_example : IsConsistent (commit writing)
commit-IsConsistent_example = commit-IsConsistent writing alices_room alices_begin

alices_own : max_seq alices.actor bobs.change_history ≤ alices.local_seq
unfolding max_seq initial compare_bytes
alices_own = omega arith

merge-IsConsistent_example : IsConsistent (merge by_insertion bobs alices)
merge-IsConsistent_example =
    merge-IsConsistent by_insertion bobs alices alices_own alices-IsConsistent
