-- ===== src/OrdMap.antt =====
-- `std::map`: the pairs in the order of their keys. `find`, `operator[]` with an assignment, `erase`.
-- A search by equality finds what the tree's search by order finds, since no key stands twice.
use automerge_cpp.Prelude.{◌≡◌, refl, Ordering, arith, if◌then◌else◌}
use automerge_cpp.Prelude.{Option, none, some, List, [], ◌∷◌}
use automerge_cpp.Prelude.Order.{Ord, eqb}

abbrev pub OrdMap {ℓ κ} : Type ℓ → Type κ → Type (ℓ ⊔ κ)
OrdMap K V = List (K × V)

module _ {ℓ κ} {K : Type ℓ} {V : Type κ} ⦃o : Ord K⦄ where
  unfoldable pub find : K → OrdMap K V → Option V
  find k [] = none
  find k ((j, v) ∷ m) = if eqb k j then some v else find k m

  -- `m[k] = v`
  unfoldable pub assign : K → V → OrdMap K V → OrdMap K V
  assign k v [] = (k, v) ∷ []
  assign k v ((j, w) ∷ m) = elim (o.cmp k j) [
    | Ordering.lt ↦ (k, v) ∷ (j, w) ∷ m
    | Ordering.eq ↦ (k, v) ∷ m
    | Ordering.gt ↦ (j, w) ∷ assign k v m
  ]

  unfoldable pub erase : K → OrdMap K V → OrdMap K V
  erase k [] = []
  erase k ((j, w) ∷ m) = let rest = erase k m in if eqb k j then rest else (j, w) ∷ rest

  -- The key is below every key of the map.
  abbrev pub Below : K → OrdMap K V → Type 0
  Below k [] = Unit
  Below k ((j, w) ∷ m) = (o.cmp k j ≡ Ordering.lt) × Below k m

  abbrev pub IsSorted : OrdMap K V → Type 0
  IsSorted [] = Unit
  IsSorted ((k, v) ∷ m) = Below k m × IsSorted m

module _ {ℓ κ} {K : Type ℓ} {V : Type κ} ⦃o : Ord K⦄ where
  pub find-assign :
      (k j : K) (v : V) (m : OrdMap K V)
      → find j (assign k v m) ≡ (if eqb j k then some v else find j m)
  unfolding find assign
  find-assign k j v [] = refl
  find-assign k j v ((i, w) ∷ m) = ground (
    arith,
    o.cmp-eq k i,
    o.cmp-flip k i,
    o.cmp_refl i,
    o.cmp-eq j i,
    o.cmp-eq j k,
    find-assign k j v m,
  )

  pub find-erase :
      (k j : K) (m : OrdMap K V) → find j (erase k m) ≡ (if eqb j k then none else find j m)
  unfolding find erase
  find-erase k j [] = ground arith
  find-erase k j ((i, w) ∷ m) = ground (
    arith,
    o.cmp-eq k i,
    o.cmp-flip k i,
    o.cmp_refl i,
    o.cmp-eq j i,
    o.cmp-eq j k,
    o.cmp-flip j k,
    o.cmp_refl k,
    find-erase k j m,
  )

  Below-assign :
      (i k : K) (v : V) (m : OrdMap K V)
      → o.cmp i k ≡ Ordering.lt
      → Below i m
      → Below i (assign k v m)
  unfolding assign
  Below-assign i k v [] h b = (h, tt)
  Below-assign i k v ((j, w) ∷ m) h b = ground (arith, Below-assign i k v m h b.1)

  Below-lower : (i k : K) (m : OrdMap K V) → o.cmp i k ≡ Ordering.lt → Below k m → Below i m
  Below-lower i k [] h b = tt
  Below-lower i k ((j, w) ∷ m) h b = (o.cmp_trans i k j h b.0, Below-lower i k m h b.1)

  pub assign-IsSorted : (k : K) (v : V) (m : OrdMap K V) → IsSorted m → IsSorted (assign k v m)
  unfolding assign
  assign-IsSorted k v [] s = (tt, tt)
  assign-IsSorted k v ((j, w) ∷ m) s = ground (
    arith,
    o.cmp-eq k j,
    o.cmp-flip k j,
    Below-lower k j m,
    Below-assign j k v m,
    assign-IsSorted k v m s.1,
  )

  Below-erase : (i k : K) (m : OrdMap K V) → Below i m → Below i (erase k m)
  unfolding erase
  Below-erase i k [] b = tt
  Below-erase i k ((j, w) ∷ m) b = ground (arith, Below-erase i k m b.1)

  pub erase-IsSorted : (k : K) (m : OrdMap K V) → IsSorted m → IsSorted (erase k m)
  unfolding erase
  erase-IsSorted k [] s = tt
  erase-IsSorted k ((j, w) ∷ m) s = ground (arith, Below-erase j k m s.0, erase-IsSorted k m s.1)
