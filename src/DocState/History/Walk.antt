-- ===== src/DocState/History/Walk.antt =====
-- The search for all ancestors of given hashes that `get_changes_since`, `changes_visible_at` and
-- `receive_sync_message` make, over the dependencies `deps` of a hash, none for one that is unknown.
use automerge_cpp.Prelude.{ℕ, zero, suc, ◌+◌, ◌≤◌, ◌<◌, ◌≡◌, arith, if◌then◌else◌, length, All}
use automerge_cpp.Prelude.{true, false, List, [], ◌∷◌}
use automerge_cpp.Prelude.Order.{Ord, eqb-eq, eqb_refl}
use automerge_cpp.DocState.{contains}

module _ {A : Type 0} ⦃o : Ord A⦄ where
  -- The inner loop: what is new goes into the set, and onto the queue.
  unfoldable pub push_deps : List A → List A → List A → List A × List A
  unfolding contains
  push_deps [] queue visited = (queue, visited)
  push_deps (dep ∷ deps) queue visited =
      let seen = contains visited dep in
      push_deps deps (if seen then queue else dep ∷ queue) (if seen then visited else dep ∷ visited)

  -- `while (!queue.empty())`: the back of the queue is the head of the list.
  unfoldable pub walk : ℕ → (A → List A) → List A → List A → List A
  unfolding push_deps
  walk zero deps queue visited = visited
  walk (suc fuel) deps [] visited = visited
  walk (suc fuel) deps (h ∷ queue) visited =
      let (queue', visited') = push_deps (deps h) queue visited in walk fuel deps queue' visited'

  abbrev pub Has : List A → A → Type 0
  Has v a = contains v a ≡ true

  -- How many entries of `universe` have not been visited.
  pub unseen : List A → List A → ℕ
  unfolding contains
  unseen visited [] = 0
  unseen visited (u ∷ universe) =
      let rest = unseen visited universe in if contains visited u then rest else suc rest

  pub unseen-le : (visited universe : List A) → unseen visited universe ≤ length universe
  unfolding unseen
  unseen-le visited [] = omega arith
  unseen-le visited (u ∷ universe) = ground (arith, unseen-le visited universe)

  unseen-grow :
      (d : A) (visited universe : List A) → unseen (d ∷ visited) universe ≤ unseen visited universe
  unfolding unseen contains
  unseen-grow d visited [] = omega arith
  unseen-grow d visited (u ∷ universe) = ground (arith, unseen-grow d visited universe)

  unseen-new :
      (d : A) (visited universe : List A)
      → contains visited d ≡ false
      → Has universe d
      → unseen (d ∷ visited) universe < unseen visited universe
  unfolding unseen contains
  unseen-new d visited [] new here = cc
  unseen-new d visited (u ∷ universe) new here = ground (
    arith,
    eqb-eq u d,
    eqb_refl d,
    unseen-grow d visited universe,
    unseen-new d visited universe new,
  )

  -- What the pushes add to the queue they take from the unseen ones.
  pub push_deps-measure :
      (ds queue visited universe : List A)
      → All (Has universe) ds
      → length (push_deps ds queue visited).0 + unseen (push_deps ds queue visited).1 universe
        ≤ length queue + unseen visited universe
  unfolding push_deps
  push_deps-measure [] queue visited universe h = omega arith
  push_deps-measure (d ∷ ds) queue visited universe h = ground (
    arith,
    push_deps-measure ds queue visited universe h.1,
    push_deps-measure ds (d ∷ queue) (d ∷ visited) universe h.1,
    unseen-new d visited universe,
  )

  -- What is visited stays visited, and what is pushed is visited.
  pub push_deps-keeps :
      (ds queue visited : List A) (a : A) → Has visited a → Has (push_deps ds queue visited).1 a
  unfolding push_deps contains
  push_deps-keeps [] queue visited a h = h
  push_deps-keeps (d ∷ ds) queue visited a h =
      ground
        (arith, push_deps-keeps ds queue visited a, push_deps-keeps ds (d ∷ queue) (d ∷ visited) a)

  pub push_deps-deps :
      (ds queue visited : List A) (a : A) → Has ds a → Has (push_deps ds queue visited).1 a
  unfolding push_deps contains
  push_deps-deps [] queue visited a h = cc
  push_deps-deps (d ∷ ds) queue visited a h = ground (
    arith,
    eqb-eq d a,
    push_deps-deps ds queue visited a,
    push_deps-deps ds (d ∷ queue) (d ∷ visited) a,
    push_deps-keeps ds queue visited a,
    push_deps-keeps ds (d ∷ queue) (d ∷ visited) a,
    eqb_refl a,
  )

  pub push_deps-queue :
      (ds queue visited : List A) (a : A) → Has queue a → Has (push_deps ds queue visited).0 a
  unfolding push_deps contains
  push_deps-queue [] queue visited a h = h
  push_deps-queue (d ∷ ds) queue visited a h =
      ground
        (arith, push_deps-queue ds queue visited a, push_deps-queue ds (d ∷ queue) (d ∷ visited) a)

  -- What is new in the set is on the queue.
  pub push_deps-pushed :
      (ds queue visited : List A) (a : A)
      → Has (push_deps ds queue visited).1 a
      → contains visited a ≡ false
      → Has (push_deps ds queue visited).0 a
  unfolding push_deps contains
  push_deps-pushed [] queue visited a h new = cc
  push_deps-pushed (d ∷ ds) queue visited a h new = ground (
    arith,
    push_deps-pushed ds queue visited a,
    push_deps-pushed ds (d ∷ queue) (d ∷ visited) a,
    push_deps-queue ds (d ∷ queue) (d ∷ visited) a,
  )
