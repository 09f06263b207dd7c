-- ===== src/DocState/History/Since.antt =====
-- What `get_changes_since` answers.
use automerge_cpp.Prelude.{
  ap, ℕ, zero, suc, ◌≡◌, ◌↔◌, arith, All, filter, Bool-cases, Option-cases, inl, inr, get_elem?,
}
use automerge_cpp.Prelude.{Bool, true, false, not, some, List, [], ◌∷◌, ◌++◌}
use automerge_cpp.Prelude.Order.{eqb_refl}
use automerge_cpp.Types.{ChangeHash, Change, hash_ord}
use automerge_cpp.OrdMap.{find}
use automerge_cpp.DocState.{DocState, contains}
use automerge_cpp.DocState.History.{
  ensure_hash_index, since_starts, deps_of, change_of, all_deps, ancestors_of, search_fuel,
  get_changes_since,
}
use automerge_cpp.DocState.History.Walk.{Has}
use automerge_cpp.DocState.History.Ancestors.{Ancestor, walk-Ancestor_iff}
use automerge_cpp.DocState.History.Index.{IsCached, hashes_of, ensured-hashes}
use automerge_cpp.DocState.History.Before.{IsBefore, Ancestor-IsBefore_iff}

Has-append_left : (xs ys : List ChangeHash) (a : ChangeHash) → Has xs a → Has (xs ++ ys) a
unfolding contains
Has-append_left [] ys a h = cc
Has-append_left (x ∷ xs) ys a h = ground (arith, Has-append_left xs ys a)

Has-append_right : (xs ys : List ChangeHash) (a : ChangeHash) → Has ys a → Has (xs ++ ys) a
unfolding contains
Has-append_right [] ys a h = h
Has-append_right (x ∷ xs) ys a h = ground (arith, Has-append_right xs ys a h)

pub All-Has : (xs ys : List ChangeHash) → ((a : ChangeHash) → Has xs a → Has ys a) → All (Has ys) xs
unfolding contains
All-Has [] ys f = tt
All-Has (x ∷ xs) ys f =
    (f x (ground (arith, eqb_refl x)), All-Has xs ys (λ a h. f a (ground arith)))

Has-all_deps :
    (history : List Change) (i : ℕ) {c : Change} (a : ChangeHash)
    → get_elem? history i ≡ some c
    → Has c.deps a
    → Has (all_deps history) a
unfolding all_deps
Has-all_deps [] i a e h = cc
Has-all_deps (x ∷ xs) zero a e h = Has-append_left x.deps (all_deps xs) a (ground arith)
Has-all_deps (x ∷ xs) (suc i) a e h =
    Has-append_right x.deps (all_deps xs) a (Has-all_deps xs i a e h)

Has-deps_of :
    (s : DocState) (h a : ChangeHash) → Has (deps_of s h) a → Has (all_deps s.change_history) a
unfolding deps_of change_of contains
Has-deps_of s h a d = elim (Option-cases (find h s.cached_hash_index)) [
  | inl e ↦ absurd (ground (arith, e))
  | inr (i, e) ↦ elim (Option-cases (get_elem? s.change_history i)) [
    | inl f ↦ absurd (ground (arith, e, f))
    | inr (c, f) ↦ Has-all_deps s.change_history i a f (ground (arith, e, f))
  ]
]

-- The search of a document's history finds exactly the ancestors of its starts.
ancestors_of-Ancestor_iff :
    (starts : List ChangeHash) (s : DocState) (a : ChangeHash)
    → Has (ancestors_of starts s) a ↔ Ancestor (deps_of s) starts a
ancestors_of-Ancestor_iff starts s =
    walk-Ancestor_iff (search_fuel starts s) (deps_of s) starts (all_deps s.change_history)
      (λ h. All-Has (deps_of s h) (all_deps s.change_history) (Has-deps_of s h)) (omega arith)

not-ancestor :
    (starts : List ChangeHash) (s : DocState) (a : ChangeHash)
    → (contains (ancestors_of starts s) a ≡ false) ↔ (¬ Ancestor (deps_of s) starts a)
not-ancestor starts s a = (
  λ no anc. cc (no, (ancestors_of-Ancestor_iff starts s a).1 anc),
  λ no. elim (Bool-cases (contains (ancestors_of starts s) a)) [
    | inl yes_in ↦ absurd (no ((ancestors_of-Ancestor_iff starts s a).0 yes_in))
    | inr out ↦ out
  ],
)

-- Of a document whose caches are right for the part of the history they cover, `get_changes_since`
-- with one head or more answers the hashes of the history, in its order, that are not before the
-- heads: a hash is before them if it is one of them and in the history, or if a change whose hash is
-- before them depends on it. Heads that the history does not have count for nothing.
pub get_changes_since_iff :
    (s : DocState) (h : ChangeHash) (heads : List ChangeHash)
    → IsCached s
    → (keep : ChangeHash → Bool) × (get_changes_since (h ∷ heads) s
        ≡ filter keep (hashes_of s.change_history))
      × ((a : ChangeHash) → (keep a ≡ true) ↔ (¬ IsBefore s.change_history (h ∷ heads) a))
unfolding get_changes_since
get_changes_since_iff s h heads c =
    let s' = ensure_hash_index s in
    let starts = since_starts s' (h ∷ heads) [] in
    let keep = λ (x : ChangeHash). not (contains (ancestors_of starts s') x) in
    (
      keep,
      ap (filter keep) (ensured-hashes s c),
      λ a.
          let anc = not-ancestor starts s' a in
          let before = Ancestor-IsBefore_iff s c (h ∷ heads) a in
          (
            λ k b. anc.0 (ground arith) (before.1 b),
            λ no. ground (arith, anc.1 (λ b. no (before.0 b))),
          ),
    )
