-- ===== src/DocState/History/Ancestors.antt =====
-- The search finds the ancestors of its starts, all of them and nothing else, and it ends.
use automerge_cpp.Prelude.{
  ℕ, zero, suc, ◌+◌, ◌<◌, ◌↔◌, ◌⊎◌, arith, length, All, Bool-cases, inl, inr, subst, sym,
}
use automerge_cpp.Prelude.{List, [], ◌∷◌}
use automerge_cpp.Prelude.Order.{Ord, eqb, eqb-eq, eqb_refl}
use automerge_cpp.DocState.{contains}
use automerge_cpp.DocState.History.Walk.{
  push_deps, walk, Has, unseen, unseen-le, push_deps-measure, push_deps-keeps, push_deps-deps,
  push_deps-queue, push_deps-pushed,
}

-- A hash from which a start depends, directly or through others, or a start.
pub data Ancestor {A : Type 0} ⦃o : Ord A⦄ (deps : A → List A) (starts : List A) : A → Type 0 where
  start : {a : A} → Has starts a → Ancestor deps starts a
  parent : {a b : A} → Ancestor deps starts b → Has (deps b) a → Ancestor deps starts a

module _ {A : Type 0} ⦃o : Ord A⦄ where
  push_deps-from_visited :
      (ds queue visited : List A) (a : A)
      → Has (push_deps ds queue visited).1 a
      → Has visited a ⊎ Has ds a
  unfolding push_deps contains
  push_deps-from_visited [] queue visited a h = inl h
  push_deps-from_visited (d ∷ ds) queue visited a h = ground (
    arith,
    push_deps-from_visited ds queue visited a,
    push_deps-from_visited ds (d ∷ queue) (d ∷ visited) a,
  )

  push_deps-from_queue :
      (ds queue visited : List A) (a : A)
      → Has (push_deps ds queue visited).0 a
      → Has queue a ⊎ Has ds a
  unfolding push_deps contains
  push_deps-from_queue [] queue visited a h = inl h
  push_deps-from_queue (d ∷ ds) queue visited a h = ground (
    arith,
    push_deps-from_queue ds queue visited a,
    push_deps-from_queue ds (d ∷ queue) (d ∷ visited) a,
  )

  pub walk-keeps :
      (fuel : ℕ) (deps : A → List A) (queue visited : List A) (a : A)
      → Has visited a
      → Has (walk fuel deps queue visited) a
  unfolding walk
  walk-keeps zero deps queue visited a h = h
  walk-keeps (suc fuel) deps [] visited a h = h
  walk-keeps (suc fuel) deps (x ∷ queue) visited a h =
      walk-keeps fuel deps (push_deps (deps x) queue visited).0 (push_deps (deps x) queue visited).1
        a (push_deps-keeps (deps x) queue visited a h)

  -- What is done: a visited hash waits on the queue, or its dependencies are visited.
  abbrev pub IsOpen : (A → List A) → List A → List A → Type 0
  IsOpen deps queue visited =
      (a : A) → Has visited a → Has queue a ⊎ ((d : A) → Has (deps a) d → Has visited d)

  IsOpen-push :
      (deps : A → List A) (x : A) (queue visited : List A)
      → IsOpen deps (x ∷ queue) visited
      → IsOpen deps (push_deps (deps x) queue visited).0 (push_deps (deps x) queue visited).1
  unfolding contains
  IsOpen-push deps x queue visited inv a h = elim (Bool-cases (contains visited a)) [
    | inr new ↦ inl (push_deps-pushed (deps x) queue visited a h new)
    | inl old ↦ elim (inv a old) [
      | inr all_in ↦ inr (λ d p. push_deps-keeps (deps x) queue visited d (all_in d p))
      | inl waits ↦ elim (Bool-cases (eqb x a)) [
        | inl same ↦ inr (λ d p.
            push_deps-deps (deps x) queue visited d
              (subst (λ (t : A). Has (deps t) d) (sym (eqb-eq x a same)) p))
        | inr other ↦ inl (push_deps-queue (deps x) queue visited a (ground arith))
      ]
    ]
  ]

  pub walk-closed :
      (fuel : ℕ) (deps : A → List A) (queue visited universe : List A)
      → ((a : A) → All (Has universe) (deps a))
      → length queue + unseen visited universe < fuel
      → IsOpen deps queue visited
      → (a d : A) → Has (walk fuel deps queue visited) a
      → Has (deps a) d
      → Has (walk fuel deps queue visited) d
  unfolding walk contains
  walk-closed zero deps queue visited universe bounded enough inv a d h p = absurd (omega arith)
  walk-closed (suc fuel) deps [] visited universe bounded enough inv a d h p = elim (inv a h) [
    | inl waits ↦ absurd (cc)
    | inr all_in ↦ all_in d p
  ]
  walk-closed (suc fuel) deps (x ∷ queue) visited universe bounded enough inv a d h p =
      walk-closed fuel deps (push_deps (deps x) queue visited).0
        (push_deps (deps x) queue visited).1 universe bounded
        (omega (arith, push_deps-measure (deps x) queue visited universe (bounded x)))
        (IsOpen-push deps x queue visited inv) a d h p

  pub walk-Ancestor :
      (fuel : ℕ) (deps : A → List A) (starts queue visited : List A)
      → ((a : A) → Has queue a → Ancestor deps starts a)
      → ((a : A) → Has visited a → Ancestor deps starts a)
      → (a : A) → Has (walk fuel deps queue visited) a
      → Ancestor deps starts a
  unfolding walk contains
  walk-Ancestor zero deps starts queue visited hq hv a h = hv a h
  walk-Ancestor (suc fuel) deps starts [] visited hq hv a h = hv a h
  walk-Ancestor (suc fuel) deps starts (x ∷ queue) visited hq hv a h =
      let here : Ancestor deps starts x = hq x (ground (arith, eqb_refl x)) in
      walk-Ancestor fuel deps starts (push_deps (deps x) queue visited).0
        (push_deps (deps x) queue visited).1
        (λ b p. elim (push_deps-from_queue (deps x) queue visited b p) [
          | inl old ↦ hq b (ground arith)
          | inr dep ↦ parent here dep
        ])
        (λ b p. elim (push_deps-from_visited (deps x) queue visited b p) [
          | inl old ↦ hv b old
          | inr dep ↦ parent here dep
        ])
        a h

  -- With more fuel than there are starts and dependencies, the search finds exactly the ancestors.
  pub walk-Ancestor_iff :
      (fuel : ℕ) (deps : A → List A) (starts universe : List A)
      → ((a : A) → All (Has universe) (deps a))
      → length starts + length universe < fuel
      → (a : A) → Has (walk fuel deps starts starts) a ↔ Ancestor deps starts a
  walk-Ancestor_iff fuel deps starts universe bounded enough a =
      (walk-Ancestor fuel deps starts starts starts (λ b p. start p) (λ b p. start p) a, complete a)
    where
      complete : (b : A) → Ancestor deps starts b → Has (walk fuel deps starts starts) b
      complete b (start p) = walk-keeps fuel deps starts starts b p
      complete b (parent {b = c} anc dep) =
          walk-closed fuel deps starts starts universe bounded
            (omega (arith, unseen-le starts universe)) (λ x p. inl p) c b (complete c anc) dep
