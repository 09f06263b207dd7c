-- ===== src/Document/Invariant.antt =====
-- What holds of a document between its operations.
use automerge_cpp.Prelude.{suc, subst, ◌^◌, ◌≤◌, ◌<◌, ◌≡◌, refl, ap, arith, max, filter, map-append}
use automerge_cpp.Prelude.{Bool, not, List, [], ◌∷◌, ◌++◌}
use automerge_cpp.Prelude.Order.{eqb, eqb_refl}
use automerge_cpp.Types.{ActorId, ChangeHash, Change, Op, actor_ord, hash_ord}
use automerge_cpp.OrdMap.{find-assign}
use automerge_cpp.DocState.{DocState, initial, contains}
use automerge_cpp.DocState.Members.{contains-append}
use automerge_cpp.DocState.Hash.{compute_change_hash}
use automerge_cpp.DocState.History.Walk.{Has}
use automerge_cpp.DocState.History.Index.{IsCached, IsCached-append, hashes_of, last_position}
use automerge_cpp.Transaction.{Transaction}
use automerge_cpp.Transaction.Commit.{commit, commit_change, commit_ops, new_change, heads_after}
use automerge_cpp.DocState.History.{apply_ops}
use automerge_cpp.Document.{seq_of, apply_change, apply_changes, erase_all, missing, Sort, merge}
use automerge_cpp.Document.Frame.{apply_ops-SameHistory, history-apply_change}
use automerge_cpp.Document.Clock.{
  ClockIsExact, seq_at, max_seq, apply_changes-ClockIsExact, commit_change-ClockIsExact,
  seq_of-apply_changes, max_seq-perm, max_seq-missing, max_seq-append,
}

-- The clock is that of the history, the caches are those of a part of it, every head is the hash of
-- one of its changes, and the document's last change is the newest of its actor.
pub record IsConsistent (s : DocState) : Type 0 where
  pub clock : ClockIsExact s
  pub cached : IsCached s
  pub heads : (h : ChangeHash) → Has s.heads h → Has (hashes_of s.change_history) h
  pub newest : seq_at s.actor s ≤ s.local_seq

Has-filter :
    (p : ChangeHash → Bool) (xs : List ChangeHash) (a : ChangeHash) → Has (filter p xs) a → Has xs a
unfolding contains
Has-filter p [] a h = h
Has-filter p (x ∷ xs) a h = ground (arith, Has-filter p xs a)

Has-erase_all :
    (deps heads : List ChangeHash) (a : ChangeHash) → Has (erase_all deps heads) a → Has heads a
unfolding erase_all
Has-erase_all [] heads a h = h
Has-erase_all (d ∷ deps) heads a h =
    Has-filter (λ x. not (eqb x d)) heads a
      (Has-erase_all deps (filter (λ x. not (eqb x d)) heads) a h)

-- Heads that were there before, and the hash of a change, are hashes of the longer history.
HeadsKnown-append :
    (old history : List Change) (c : Change) (kept : List ChangeHash)
    → ((h : ChangeHash) → Has kept h → Has (hashes_of old) h)
    → history ≡ old ++ (c ∷ [])
    → (h : ChangeHash) → Has (kept ++ (compute_change_hash c ∷ [])) h
    → Has (hashes_of history) h
unfolding contains
HeadsKnown-append old history c kept known e h p = ground (
  arith,
  known h,
  ap hashes_of e,
  ap (λ (l : List ChangeHash). contains l h) (ap hashes_of e),
  ap (λ (l : List ChangeHash). contains l h) (map-append compute_change_hash old (c ∷ [])),
  contains-append kept (compute_change_hash c ∷ []) h,
  contains-append (hashes_of old) (compute_change_hash c ∷ []) h,
)

-- A new document is consistent.
pub initial-IsConsistent : (actor : ActorId) → IsConsistent (initial actor)
unfolding initial contains seq_of max_seq last_position
initial-IsConsistent actor = record {
  clock = λ a. refl;
  cached = record { old = []; new = []; history = refl; hashes = refl; index = λ h. refl };
  heads = λ h p. cc;
  newest = omega arith;
}

max_seq-cons :
    (a : ActorId) (c : Change) (cs : List Change)
    → max_seq a (c ∷ cs) ≡ max (max_seq a (c ∷ [])) (max_seq a cs)
max_seq-cons a c cs = max_seq-append a (c ∷ []) cs

newest-apply_change :
    (c : Change) (s : DocState)
    → max_seq s.actor (c ∷ []) ≤ s.local_seq
    → IsConsistent s
    → seq_at (apply_change c s).actor (apply_change c s) ≤ (apply_change c s).local_seq
unfolding apply_changes
newest-apply_change c s own i =
    let same = apply_ops-SameHistory c.operations s in
    let actor : (apply_change c s).actor ≡ s.actor = unfold apply_change in same.actor in
    let local_seq : (apply_change c s).local_seq ≡ s.local_seq =
      unfold apply_change in same.local_seq in
    omega (
      arith,
      seq_of-apply_changes s.actor (c ∷ []) s,
      ap (λ (t : ActorId). seq_at t (apply_change c s)) actor,
      i.newest,
    )

-- A change of another actor, or a known one of the document's own, keeps a document consistent.
apply_change-IsConsistent :
    (c : Change) (s : DocState)
    → max_seq s.actor (c ∷ []) ≤ s.local_seq
    → IsConsistent s
    → IsConsistent (apply_change c s)
unfolding apply_change
apply_change-IsConsistent c s own i =
    let same = apply_ops-SameHistory c.operations s in
    record {
      clock = unfold apply_changes in apply_changes-ClockIsExact (c ∷ []) s i.clock;
      cached =
          IsCached-append s (apply_change c s) (c ∷ []) i.cached (history-apply_change c s)
            same.cached_hashes same.cached_hash_index;
      heads =
          HeadsKnown-append s.change_history (apply_change c s).change_history c
            (erase_all c.deps (apply_ops c.operations s).heads)
            (λ h p. i.heads h (
              subst (λ (l : List ChangeHash). Has l h) same.heads
                (Has-erase_all c.deps (apply_ops c.operations s).heads h p)))
            (history-apply_change c s);
      newest = newest-apply_change c s own i;
    }

commit_change-IsConsistent :
    (c : Change) (s : DocState)
    → c.actor ≡ s.actor
    → seq_at s.actor s ≤ c.seq
    → IsConsistent s
    → IsConsistent (commit_change c s)
unfolding commit_change heads_after seq_of
commit_change-IsConsistent c s same newer i = record {
  clock = commit_change-ClockIsExact c s same newer i.clock;
  cached = IsCached-append s (commit_change c s) (c ∷ []) i.cached refl refl refl;
  heads =
      HeadsKnown-append s.change_history (s.change_history ++ (c ∷ [])) c
        (filter (λ h. not (contains c.deps h)) s.heads)
        (λ h p. i.heads h (Has-filter (λ x. not (contains c.deps x)) s.heads h p)) refl;
  newest = ground (arith, find-assign s.actor s.actor c.seq s.clock, eqb_refl s.actor);
}

-- A commit keeps a document consistent, as long as the sequence number does not wrap.
pub commit-IsConsistent :
    (tx : Transaction)
    → suc tx.state.local_seq < 2 ^ 64
    → IsConsistent tx.state
    → IsConsistent (commit tx)
unfolding commit new_change
commit-IsConsistent tx room i = by_ops tx.pending_ops
  where
    by_ops : (ops : List Op) → IsConsistent (commit_ops ops tx)
    by_ops [] = i
    by_ops (o ∷ ops) =
        commit_change-IsConsistent (new_change tx.state tx.start_op (o ∷ ops)) tx.state refl
          (omega (arith, i.newest)) i

-- Changes that are applied keep a document consistent, if none of them is a change of its own actor
-- that is newer than its last one.
pub apply_changes-IsConsistent :
    (cs : List Change) (s : DocState)
    → max_seq s.actor cs ≤ s.local_seq
    → IsConsistent s
    → IsConsistent (apply_changes cs s)
unfolding apply_changes
apply_changes-IsConsistent [] s own i = i
apply_changes-IsConsistent (c ∷ cs) s own i =
    let same = apply_ops-SameHistory c.operations s in
    let actor : (apply_change c s).actor ≡ s.actor = unfold apply_change in same.actor in
    let local_seq : (apply_change c s).local_seq ≡ s.local_seq =
      unfold apply_change in same.local_seq in
    let split = max_seq-cons s.actor c cs in
    apply_changes-IsConsistent cs (apply_change c s)
      (omega (arith, split, local_seq, ap (λ (t : ActorId). max_seq t cs) actor))
      (apply_change-IsConsistent c s (omega (arith, split)) i)

-- A merge keeps a document consistent, if the other one has no change of the document's own actor
-- that is newer than its last one.
pub merge-IsConsistent :
    (by : Sort) (other s : DocState)
    → max_seq s.actor other.change_history ≤ s.local_seq
    → IsConsistent s
    → IsConsistent (merge by other s)
unfolding merge
merge-IsConsistent by other s own i =
    apply_changes-IsConsistent (by.sort (missing other.change_history s)) s
      (omega (
        arith,
        max_seq-perm s.actor (by.sort-perm (missing other.change_history s)),
        max_seq-missing s.actor other.change_history s,
        i.newest,
      ))
      i
