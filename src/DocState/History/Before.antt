-- ===== src/DocState/History/Before.antt =====
-- Which hashes a history has before given heads, said of the changes alone, and that this is what the
-- search of `get_changes_since` goes through.
use automerge_cpp.Prelude.{
  ℕ, ◌+◌, ◌≡◌, ◌⊎◌, ◌↔◌, refl, sym, ap, ◌∙◌, subst, arith, if◌then◌else◌, ◌==◌, length, Bool-cases,
  Option-cases, inl, inr, get_elem?,
}
use automerge_cpp.Prelude.{true, false, Option, none, some, List, [], ◌∷◌, ◌++◌}
use automerge_cpp.Prelude.Order.{eqb, eqb-eq, eqb_refl, eqb_comm}
use automerge_cpp.Types.{ChangeHash, Change, hash_ord}
use automerge_cpp.OrdMap.{find}
use automerge_cpp.DocState.{DocState, contains}
use automerge_cpp.DocState.Hash.{compute_change_hash}
use automerge_cpp.DocState.History.{ensure_hash_index, since_starts, deps_of, change_of, indexed}
use automerge_cpp.DocState.History.Walk.{Has}
use automerge_cpp.DocState.History.Ancestors.{Ancestor, start, parent}
use automerge_cpp.DocState.History.Index.{
  IsCached, hashes_of, last_position, ensured-IsIndexOf, indexed-ensure,
}

-- The last change of the history with the hash `h` has `a` among its dependencies.
pub record DependsOn (history : List Change) (h a : ChangeHash) : Type 0 where
  pub before : List Change
  pub change : Change
  pub after : List Change
  pub split : history ≡ before ++ (change ∷ after)
  pub hashed : compute_change_hash change ≡ h
  pub latest : contains (hashes_of after) h ≡ false
  pub dependency : Has change.deps a

-- A head that the history has, or what a change with such a hash depends on.
pub data IsBefore (history : List Change) (heads : List ChangeHash) : ChangeHash → Type 0 where
  head : {a : ChangeHash} → Has heads a → Has (hashes_of history) a → IsBefore history heads a
  dep :
      {a b : ChangeHash}
      → IsBefore history heads b
      → DependsOn history b a
      → IsBefore history heads a

Has-since_starts :
    (s : DocState) (heads starts : List ChangeHash) (a : ChangeHash)
    → Has (since_starts s heads starts) a ↔ (Has starts a ⊎ (Has heads a × (indexed s a ≡ true)))
unfolding since_starts contains
Has-since_starts s [] starts a = ground arith
Has-since_starts s (h ∷ heads) starts a =
    let kept = Has-since_starts s heads (h ∷ starts) a in
    let same : (eqb h a ≡ true) → indexed s h ≡ indexed s a = λ e. ap (indexed s) (eqb-eq h a e) in
    elim (Bool-cases (indexed s h)) [
      | inr other ↦ ground (arith, other, same, Has-since_starts s heads starts a)
      | inl known ↦ ground (arith, known, same, kept)
    ]

since_starts_iff :
    (s : DocState) (heads : List ChangeHash) (a : ChangeHash)
    → Has (since_starts s heads []) a ↔ (Has heads a × (indexed s a ≡ true))
unfolding contains
since_starts_iff s heads a = ground (arith, Has-since_starts s heads [] a)

-- The last place of a hash in the history is the one it had, or that of its last change.
last_position-found :
    (h : ChangeHash) (i k : ℕ) (history : List Change) (found : Option ℕ)
    → last_position h i (hashes_of history) found ≡ some k
    → ((found ≡ some k) × (contains (hashes_of history) h ≡ false))
      ⊎ ((before : List Change) × (change : Change) × (after : List Change) × (history
            ≡ before ++ (change ∷ after))
          × (compute_change_hash change ≡ h)
          × (contains (hashes_of after) h ≡ false)
          × (k ≡ i + length before))
unfolding last_position contains
last_position-found h i k [] found e = inl (e, refl)
last_position-found h i k (c ∷ cs) found e =
    let x = compute_change_hash c in
    elim (last_position-found h (i + 1) k cs (if eqb h x then some i else found) e) [
      | inr (before, change, after, split, hashed, latest, place) ↦
          inr (c ∷ before, change, after, ap (◌∷◌ c) split, hashed, latest, omega arith)
      | inl (was, out) ↦ elim (Bool-cases (eqb h x)) [
        | inr other ↦ inl (ground (arith, was, other), ground (arith, out, eqb_comm h x))
        | inl same ↦ inr ([], c, cs, refl, sym (eqb-eq h x same), out, ground (arith, was, same))
      ]
    ]

last_position-absent :
    (h : ChangeHash) (i : ℕ) (hashes : List ChangeHash) (found : Option ℕ)
    → contains hashes h ≡ false
    → last_position h i hashes found ≡ found
unfolding last_position contains
last_position-absent h i [] found e = refl
last_position-absent h i (x ∷ xs) found e =
    last_position-absent h (i + 1) xs (if eqb h x then some i else found) (ground arith)
    ∙ ground (arith, eqb_comm h x)

last_position-split :
    (i : ℕ) (before : List Change) (c : Change) (after : List Change) (found : Option ℕ)
    → contains (hashes_of after) (compute_change_hash c) ≡ false
    → last_position (compute_change_hash c) i (hashes_of (before ++ (c ∷ after))) found
      ≡ some (i + length before)
unfolding last_position
last_position-split i [] c after found e =
    let h = compute_change_hash c in
    last_position-absent h (i + 1) (hashes_of after) (if eqb h h then some i else found) e
    ∙ ground (arith, eqb_refl h)
last_position-split i (b ∷ before) c after found e =
    last_position-split (i + 1) before c after
      (if eqb (compute_change_hash c) (compute_change_hash b) then some i else found) e
    ∙ ground arith

get_elem?-split :
    (before : List Change) (c : Change) (after : List Change)
    → get_elem? (before ++ (c ∷ after)) (length before) ≡ some c
get_elem?-split [] c after = refl
get_elem?-split (b ∷ before) c after = get_elem?-split before c after

ensure_hash_index-history : (s : DocState) → (ensure_hash_index s).change_history ≡ s.change_history
unfolding ensure_hash_index
ensure_hash_index-history s =
    elim (Bool-cases (length s.cached_hashes == length s.change_history)) [
      | inl same ↦ rw same refl
      | inr other ↦ rw other refl
    ]

deps_of-place :
    (s : DocState) (h : ChangeHash) (k : ℕ) (change : Change)
    → find h s.cached_hash_index ≡ some k
    → get_elem? s.change_history k ≡ some change
    → deps_of s h ≡ change.deps
unfolding deps_of change_of
deps_of-place s h k change e f = ground (arith, e, f)

get_elem?-history :
    (s : DocState) (before : List Change) (change : Change) (after : List Change)
    → s.change_history ≡ before ++ (change ∷ after)
    → get_elem? (ensure_hash_index s).change_history (length before) ≡ some change
get_elem?-history s before change after split =
    ap (λ (l : List Change). get_elem? l (length before)) (ensure_hash_index-history s ∙ split)
    ∙ get_elem?-split before change after

module _ (s : DocState) (c : IsCached s) where
  indexed_iff :
      (a : ChangeHash)
      → (indexed (ensure_hash_index s) a ≡ true) ↔ Has (hashes_of s.change_history) a
  indexed_iff a = ground (arith, indexed-ensure s a c)

  DependsOn-deps_of :
      (h a : ChangeHash) → Has (deps_of (ensure_hash_index s) h) a → DependsOn s.change_history h a
  unfolding deps_of change_of contains
  DependsOn-deps_of h a d =
      let s' = ensure_hash_index s in
      elim (Option-cases (find h s'.cached_hash_index)) [
        | inl e ↦ absurd (ground (arith, e))
        | inr (k, e) ↦
            elim (last_position-found h 0 k s.change_history none
              (sym (ensured-IsIndexOf s c h) ∙ e)) [
                | inl (was, out) ↦ absurd (cc (was))
                | inr (before, change, after, split, hashed, latest, place) ↦
                    let there : get_elem? s'.change_history (length before) ≡ some change =
                      get_elem?-history s before change after split in
                    let found : find h s'.cached_hash_index ≡ some (length before) =
                      e ∙ ap some (omega arith) in
                    record {
                      before = before;
                      change = change;
                      after = after;
                      split = split;
                      hashed = hashed;
                      latest = latest;
                      dependency =
                          subst (λ (l : List ChangeHash). Has l a)
                            (deps_of-place s' h (length before) change found there) d;
                    }
              ]
      ]

  deps_of-DependsOn :
      (h a : ChangeHash) → DependsOn s.change_history h a → Has (deps_of (ensure_hash_index s) h) a
  deps_of-DependsOn h a d =
      let s' = ensure_hash_index s in
      let place : find h s'.cached_hash_index ≡ some (length d.before) =
        ensured-IsIndexOf s c h
        ∙ ap (λ (l : List Change). last_position h 0 (hashes_of l) none) d.split
        ∙ subst
            (λ (x : ChangeHash).
              contains (hashes_of d.after) x ≡ false
              → last_position x 0 (hashes_of (d.before ++ (d.change ∷ d.after))) none
                ≡ some (length d.before))
            d.hashed
            (λ e. last_position-split 0 d.before d.change d.after none e ∙ ap some (omega arith))
            d.latest in
      subst (λ (l : List ChangeHash). Has l a)
        (sym (
          deps_of-place s' h (length d.before) d.change place
            (get_elem?-history s d.before d.change d.after d.split)))
        d.dependency

  -- The search's starts and steps are those of the history.
  pub Ancestor-IsBefore_iff :
      (heads : List ChangeHash) (a : ChangeHash)
      → Ancestor (deps_of (ensure_hash_index s)) (since_starts (ensure_hash_index s) heads []) a
        ↔ IsBefore s.change_history heads a
  Ancestor-IsBefore_iff heads a = (sound a, complete a)
    where
      s' : DocState
      s' = ensure_hash_index s

      sound :
          (x : ChangeHash)
          → Ancestor (deps_of s') (since_starts s' heads []) x
          → IsBefore s.change_history heads x
      sound x (start p) =
          let (given, known) = (since_starts_iff s' heads x).0 p in
          head given ((indexed_iff x).0 known)
      sound x (parent {b = y} anc p) = dep (sound y anc) (DependsOn-deps_of y x p)

      complete :
          (x : ChangeHash)
          → IsBefore s.change_history heads x
          → Ancestor (deps_of s') (since_starts s' heads []) x
      complete x (head given known) =
          start ((since_starts_iff s' heads x).1 (given, (indexed_iff x).1 known))
      complete x (dep {b = y} earlier d) = parent (complete y earlier) (deps_of-DependsOn y x d)
