-- ===== src/Document/Merge.antt =====
-- Merging what is known changes nothing.
use mathlib.Core.Logic.{∥∥₁_elim}
use mathlib.Core.List.{Perm, Permᴰ}
use mathlib.Core.List.Perm
use mathlib.Core.Bool.{Bool-set}
use automerge_cpp.Prelude.{◌≡◌, refl, sym, ap, ◌∙◌, arith, max, all}
use automerge_cpp.Prelude.{Bool, true, List, [], ◌∷◌}
use automerge_cpp.Prelude.Order.{eqb-eq, eqb_refl}
use automerge_cpp.Types.{Change, actor_ord}
use automerge_cpp.OrdMap.{find, find-assign}
use automerge_cpp.DocState.{DocState}
use automerge_cpp.DocState.History.{apply_ops}
use automerge_cpp.Document.{seq_of, apply_change, apply_changes, is_known, missing, Sort, merge}
use automerge_cpp.Document.Frame.{apply_ops-SameHistory}

abbrev AllKnown : DocState → List Change → Type 0
AllKnown s cs = all (is_known s) cs ≡ true

missing-known : (cs : List Change) (s : DocState) → AllKnown s cs → missing cs s ≡ []
unfolding missing
missing-known [] s h = refl
missing-known (c ∷ cs) s h = ground (arith, missing-known cs s)

no_change : (by : Sort) → by.sort [] ≡ []
no_change by = Perm.eq-nil (by.sort-perm [])

-- A merge of a document whose changes the clock covers changes nothing.
pub merge-known :
    (by : Sort) (other s : DocState) → AllKnown s other.change_history → merge by other s ≡ s
unfolding merge apply_changes
merge-known by other s h = rw (missing-known other.change_history s h, no_change by) refl

is_known-apply_change :
    (c d : Change) (s : DocState) → is_known s d ≡ true → is_known (apply_change c s) d ≡ true
unfolding is_known apply_change seq_of
is_known-apply_change c d s h = ground (
  arith,
  eqb-eq d.actor c.actor,
  ap (find d.actor) (apply_ops-SameHistory c.operations s).clock,
  find-assign c.actor d.actor (max (seq_of c.actor (apply_ops c.operations s).clock) c.seq)
      (apply_ops c.operations s).clock,
)

is_known-apply_self : (c : Change) (s : DocState) → is_known (apply_change c s) c ≡ true
unfolding is_known apply_change
is_known-apply_self c s = ground (
  arith,
  eqb_refl c.actor,
  find-assign c.actor c.actor (max (seq_of c.actor (apply_ops c.operations s).clock) c.seq)
      (apply_ops c.operations s).clock,
)

is_known-apply_changes :
    (cs : List Change) (d : Change) (s : DocState)
    → is_known s d ≡ true
    → is_known (apply_changes cs s) d ≡ true
unfolding apply_changes
is_known-apply_changes [] d s h = h
is_known-apply_changes (c ∷ cs) d s h =
    is_known-apply_changes cs d (apply_change c s) (is_known-apply_change c d s h)

AllKnown-apply_changes : (cs : List Change) (s : DocState) → AllKnown (apply_changes cs s) cs
unfolding apply_changes
AllKnown-apply_changes [] s = refl
AllKnown-apply_changes (c ∷ cs) s = ground (
  arith,
  is_known-apply_changes cs c (apply_change c s) (is_known-apply_self c s),
  AllKnown-apply_changes cs (apply_change c s),
)

all-Permᴰ : (p : Change → Bool) {xs ys : List Change} → Permᴰ xs ys → all p xs ≡ all p ys
all-Permᴰ p Permᴰ.nil = refl
all-Permᴰ p (Permᴰ.cons e q) = ground (arith, e, ap p e, all-Permᴰ p q)
all-Permᴰ p (Permᴰ.swap d e) = ground (arith, ap p d, ap p e)
all-Permᴰ p (Permᴰ.trans q r) = all-Permᴰ p q ∙ all-Permᴰ p r

all-perm : (p : Change → Bool) {xs ys : List Change} → Perm xs ys → all p xs ≡ all p ys
all-perm p q = ∥∥₁_elim q (Bool-set _ _) (all-Permᴰ p)

-- What was known stays so, and what was missing is known afterwards.
AllKnown-missing :
    (cs : List Change) (s t : DocState)
    → ((d : Change) → is_known s d ≡ true → is_known t d ≡ true)
    → AllKnown t (missing cs s)
    → AllKnown t cs
unfolding missing
AllKnown-missing [] s t keep h = refl
AllKnown-missing (c ∷ cs) s t keep h = ground (arith, keep c, AllKnown-missing cs s t keep)

pub AllKnown-merge :
    (by : Sort) (other s : DocState) → AllKnown (merge by other s) other.change_history
unfolding merge
AllKnown-merge by other s =
    let new = by.sort (missing other.change_history s) in
    AllKnown-missing other.change_history s (apply_changes new s)
      (λ d h. is_known-apply_changes new d s h)
      (sym (
          all-perm (is_known (apply_changes new s)) (by.sort-perm (missing other.change_history s)))
        ∙ AllKnown-apply_changes new s)

-- A second merge of the same document changes nothing.
pub merge_idempotent :
    (by : Sort) (other s : DocState) → merge by other (merge by other s) ≡ merge by other s
merge_idempotent by other s = merge-known by other (merge by other s) (AllKnown-merge by other s)
