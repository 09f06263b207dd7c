-- ===== src/Document/Clock.antt =====
-- The clock of a document against its history.
use native.Mathlib.Nat.{ℕ_set}
use mathlib.Core.Logic.{∥∥₁_elim}
use mathlib.Core.List.{Permᴰ}
use mathlib.Core.List.{Perm}
use automerge_cpp.Prelude.{ℕ, ◌≤◌, ◌≡◌, refl, ap, ◌∙◌, arith, max, if◌then◌else◌}
use automerge_cpp.Prelude.{List, [], ◌∷◌, ◌++◌}
use automerge_cpp.Prelude.Order.{eqb, eqb-eq}
use automerge_cpp.Types.{ActorId, Change, actor_ord}
use automerge_cpp.OrdMap.{find, find-assign}
use automerge_cpp.DocState.{DocState}
use automerge_cpp.DocState.History.{apply_ops}
use automerge_cpp.Transaction.Commit.{commit_change}
use automerge_cpp.Document.{seq_of, apply_change, apply_changes, is_known, missing, Sort, merge}
use automerge_cpp.Document.Frame.{apply_ops-SameHistory, history-apply_changes}

-- The largest sequence number of an actor in a history.
unfoldable pub max_seq : ActorId → List Change → ℕ
max_seq a [] = 0
max_seq a (c ∷ cs) = let rest = max_seq a cs in if eqb a c.actor then max c.seq rest else rest

abbrev pub seq_at : ActorId → DocState → ℕ
seq_at a s = seq_of a s.clock

-- The clock tells for every actor the largest sequence number of its changes.
abbrev pub ClockIsExact : DocState → Type 0
ClockIsExact s = (a : ActorId) → seq_at a s ≡ max_seq a s.change_history

pub max_seq-append :
    (a : ActorId) (xs ys : List Change) → max_seq a (xs ++ ys) ≡ max (max_seq a xs) (max_seq a ys)
unfolding max_seq
max_seq-append a [] ys = omega arith
max_seq-append a (x ∷ xs) ys = ground (arith, max_seq-append a xs ys)

seq_of-apply_change :
    (a : ActorId) (c : Change) (s : DocState)
    → seq_at a (apply_change c s) ≡ (if eqb a c.actor then max (seq_at a s) c.seq else seq_at a s)
unfolding apply_change seq_of
seq_of-apply_change a c s = ground (
  arith,
  eqb-eq a c.actor,
  ap (find a) (apply_ops-SameHistory c.operations s).clock,
  find-assign c.actor a (max (seq_of c.actor (apply_ops c.operations s).clock) c.seq)
      (apply_ops c.operations s).clock,
)

pub seq_of-apply_changes :
    (a : ActorId) (cs : List Change) (s : DocState)
    → seq_at a (apply_changes cs s) ≡ max (seq_at a s) (max_seq a cs)
unfolding apply_changes max_seq
seq_of-apply_changes a [] s = omega arith
seq_of-apply_changes a (c ∷ cs) s =
    ground (arith, seq_of-apply_changes a cs (apply_change c s), seq_of-apply_change a c s)

-- Changes that are applied are the changes by which the clock moves.
pub apply_changes-ClockIsExact :
    (cs : List Change) (s : DocState) → ClockIsExact s → ClockIsExact (apply_changes cs s)
apply_changes-ClockIsExact cs s exact a = omega (
  arith,
  seq_of-apply_changes a cs s,
  exact a,
  max_seq-append a s.change_history cs,
  ap (max_seq a) (history-apply_changes cs s),
)

max_seq-Permᴰ : (a : ActorId) {xs ys : List Change} → Permᴰ xs ys → max_seq a xs ≡ max_seq a ys
unfolding max_seq
max_seq-Permᴰ a Permᴰ.nil = refl
max_seq-Permᴰ a (Permᴰ.cons e p) = ground (arith, e, max_seq-Permᴰ a p)
max_seq-Permᴰ a (Permᴰ.swap d e) = ground (arith, d, e)
max_seq-Permᴰ a (Permᴰ.trans p q) = max_seq-Permᴰ a p ∙ max_seq-Permᴰ a q

pub max_seq-perm : (a : ActorId) {xs ys : List Change} → Perm xs ys → max_seq a xs ≡ max_seq a ys
max_seq-perm a p = ∥∥₁_elim p (ℕ_set _ _) (max_seq-Permᴰ a)

-- A change that the clock covers does not move it.
pub max_seq-missing :
    (a : ActorId) (cs : List Change) (s : DocState)
    → max (seq_at a s) (max_seq a (missing cs s)) ≡ max (seq_at a s) (max_seq a cs)
unfolding max_seq missing is_known seq_of
max_seq-missing a [] s = refl
max_seq-missing a (c ∷ cs) s = ground (arith, eqb-eq a c.actor, max_seq-missing a cs s)

-- After a merge, the clock has for every actor the larger of its own entry and the largest sequence
-- number of the other history, in whatever order the changes were applied.
pub seq_at-merge :
    (by : Sort) (other s : DocState) (a : ActorId)
    → seq_at a (merge by other s) ≡ max (seq_at a s) (max_seq a other.change_history)
unfolding merge
seq_at-merge by other s a = omega (
  arith,
  seq_of-apply_changes a (by.sort (missing other.change_history s)) s,
  max_seq-perm a (by.sort-perm (missing other.change_history s)),
  max_seq-missing a other.change_history s,
)

-- Two documents whose clocks are exact have the same clock after each has merged the other.
pub seq_at-merge_comm :
    (by : Sort) (s t : DocState) (a : ActorId)
    → ClockIsExact s
    → ClockIsExact t
    → seq_at a (merge by t s) ≡ seq_at a (merge by s t)
seq_at-merge_comm by s t a exact_s exact_t =
    omega (arith, seq_at-merge by t s a, seq_at-merge by s t a, exact_s a, exact_t a)

-- A commit moves the clock of the local actor to the number of its change.
pub commit_change-ClockIsExact :
    (c : Change) (s : DocState)
    → c.actor ≡ s.actor
    → seq_at s.actor s ≤ c.seq
    → ClockIsExact s
    → ClockIsExact (commit_change c s)
unfolding commit_change seq_of max_seq
commit_change-ClockIsExact c s same newer exact a = ground (
  arith,
  exact a,
  eqb-eq a s.actor,
  max_seq-append a s.change_history (c ∷ []),
  find-assign s.actor a c.seq s.clock,
)
