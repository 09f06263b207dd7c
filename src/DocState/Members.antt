-- ===== src/DocState/Members.antt =====
-- Membership in lists of hashes.
use automerge_cpp.Prelude.{◌≡◌, refl, ap, arith, filter, Bool-cases, inl, inr}
use automerge_cpp.Prelude.{Bool, ◌&&◌, ◌||◌, List, [], ◌∷◌, ◌++◌}
use automerge_cpp.Prelude.Order.{eqb, eqb-eq}
use automerge_cpp.Types.{ChangeHash, hash_ord}
use automerge_cpp.DocState.{contains}

pub contains-append :
    (xs ys : List ChangeHash) (a : ChangeHash)
    → contains (xs ++ ys) a ≡ (contains xs a || contains ys a)
unfolding contains
contains-append [] ys a = refl
contains-append (x ∷ xs) ys a = ground (arith, contains-append xs ys a)

pub contains-filter :
    (p : ChangeHash → Bool) (xs : List ChangeHash) (a : ChangeHash)
    → contains (filter p xs) a ≡ (contains xs a && p a)
unfolding contains
contains-filter p [] a = refl
contains-filter p (x ∷ xs) a = elim (Bool-cases (eqb x a)) [
  | inl same ↦
      let same_p : p x ≡ p a = ap p (eqb-eq x a same) in
      ground (arith, same, same_p, contains-filter p xs a)
  | inr other ↦ ground (arith, contains-filter p xs a)
]
