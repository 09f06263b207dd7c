-- ===== src/DocState/History/Index.antt =====
-- The index of the hashes stays that of the history.
use automerge_cpp.Prelude.{
  ℕ, ◌+◌, ◌≡◌, refl, sym, ap, ◌∙◌, arith, if◌then◌else◌, ◌==◌, length, drop, Bool-cases, inl, inr,
  drop-append, length-append,
}
use automerge_cpp.Prelude.{
  true, Option, none, some, List, [], ◌∷◌, ◌++◌, map, append-nil, append_assoc, map-append, ◌||◌,
}
use automerge_cpp.Prelude.Order.{eqb, eqb_comm}
use automerge_cpp.Types.{ChangeHash, Change, hash_ord}
use automerge_cpp.OrdMap.{OrdMap, find, assign, find-assign}
use automerge_cpp.DocState.{DocState, contains}
use automerge_cpp.DocState.Hash.{compute_change_hash}
use automerge_cpp.DocState.History.{
  index_changes, ensure_hash_index, has_change_hash, indexed, set_index, is_some,
}

-- The last place of a hash in a list of them.
unfoldable pub last_position : ChangeHash → ℕ → List ChangeHash → Option ℕ → Option ℕ
last_position h i [] found = found
last_position h i (x ∷ xs) found = last_position h (i + 1) xs (if eqb h x then some i else found)

last_position-append :
    (h x : ChangeHash) (i : ℕ) (xs : List ChangeHash) (found : Option ℕ)
    → last_position h i (xs ++ (x ∷ [])) found
      ≡ (if eqb h x then some (i + length xs) else last_position h i xs found)
unfolding last_position
last_position-append h x i [] found = ground arith
last_position-append h x i (y ∷ ys) found =
    last_position-append h x (i + 1) ys (if eqb h y then some i else found) ∙ ground arith

abbrev pub hashes_of : List Change → List ChangeHash
hashes_of changes = map compute_change_hash changes

-- The caches are those of the changes `old` that were there when they were last filled.
pub record IsCached (s : DocState) : Type 0 where
  pub old : List Change
  pub new : List Change
  pub history : s.change_history ≡ old ++ new
  pub hashes : s.cached_hashes ≡ hashes_of old
  pub index : (h : ChangeHash) → find h s.cached_hash_index ≡ last_position h 0 s.cached_hashes none

abbrev pub IsIndexOf : OrdMap ChangeHash ℕ → List ChangeHash → Type 0
IsIndexOf index hashes = (h : ChangeHash) → find h index ≡ last_position h 0 hashes none

index_changes-hashes :
    (i : ℕ) (changes : List Change) (hashes : List ChangeHash) (index : OrdMap ChangeHash ℕ)
    → (index_changes i changes hashes index).0 ≡ hashes ++ hashes_of changes
unfolding index_changes
index_changes-hashes i [] hashes index = sym (append-nil hashes)
index_changes-hashes i (c ∷ cs) hashes index =
    let h = compute_change_hash c in
    index_changes-hashes (i + 1) cs (hashes ++ (h ∷ [])) (assign h i index)
    ∙ append_assoc hashes (h ∷ []) (hashes_of cs)

index_changes-IsIndexOf :
    (i : ℕ) (changes : List Change) (hashes : List ChangeHash) (index : OrdMap ChangeHash ℕ)
    → i ≡ length hashes
    → IsIndexOf index hashes
    → IsIndexOf (index_changes i changes hashes index).1 (index_changes i changes hashes index).0
unfolding index_changes
index_changes-IsIndexOf i [] hashes index e h = h
index_changes-IsIndexOf i (c ∷ cs) hashes index e h =
    let x = compute_change_hash c in
    index_changes-IsIndexOf (i + 1) cs (hashes ++ (x ∷ [])) (assign x i index)
      (omega (arith, length-append hashes (x ∷ [])))
      (λ g.
        find-assign x g i index
        ∙ (ground (arith, h g) ∙ sym (last_position-append g x 0 hashes none)))

length-hashes_of : (cs : List Change) → length (hashes_of cs) ≡ length cs
length-hashes_of [] = refl
length-hashes_of (c ∷ cs) = omega (arith, length-hashes_of cs)

none_left : (cs : List Change) → length cs ≡ 0 → cs ≡ []
none_left [] h = refl
none_left (c ∷ cs) h = absurd (omega arith)

module _ (s : DocState) (c : IsCached s) where
  length-cached : length s.cached_hashes ≡ length c.old
  length-cached = ap length c.hashes ∙ length-hashes_of c.old

  left : drop (length s.cached_hashes) s.change_history ≡ c.new
  left =
      ap (λ (n : ℕ). drop n s.change_history) length-cached
      ∙ ap (drop (length c.old)) c.history
      ∙ drop-append c.old c.new

  all_cached : (length s.cached_hashes == length s.change_history) ≡ true → c.new ≡ []
  all_cached same =
      none_left c.new
        (ground (arith, length-cached, ap length c.history, length-append c.old c.new))

  ensure_hash_index-eq :
      ensure_hash_index s
      ≡ set_index
          (index_changes (length s.cached_hashes) c.new s.cached_hashes s.cached_hash_index)
          s
  unfolding ensure_hash_index index_changes
  ensure_hash_index-eq = elim (Bool-cases (length s.cached_hashes == length s.change_history)) [
    | inl same ↦ rw (same, all_cached same) refl
    | inr other ↦ rw (other, left) refl
  ]

  all_hashes : s.cached_hashes ++ hashes_of c.new ≡ hashes_of s.change_history
  all_hashes =
      ap (λ (t : List ChangeHash). t ++ hashes_of c.new) c.hashes
      ∙ sym (map-append compute_change_hash c.old c.new)
      ∙ sym (ap hashes_of c.history)

  -- After it is filled, the index holds the hashes of all changes.
  pub ensured-hashes : (ensure_hash_index s).cached_hashes ≡ hashes_of s.change_history
  ensured-hashes =
      ap (λ (t : DocState). t.cached_hashes) ensure_hash_index-eq
      ∙ index_changes-hashes (length s.cached_hashes) c.new s.cached_hashes s.cached_hash_index
      ∙ all_hashes

  pub ensured-IsIndexOf :
      IsIndexOf (ensure_hash_index s).cached_hash_index (hashes_of s.change_history)
  ensured-IsIndexOf h =
      ap (λ (t : DocState). find h t.cached_hash_index) ensure_hash_index-eq
      ∙ index_changes-IsIndexOf (length s.cached_hashes) c.new s.cached_hashes s.cached_hash_index
          refl c.index h
      ∙ ap (λ (t : List ChangeHash). last_position h 0 t none)
          (index_changes-hashes (length s.cached_hashes) c.new s.cached_hashes s.cached_hash_index
            ∙ all_hashes)

last_position-contains :
    (h : ChangeHash) (i : ℕ) (xs : List ChangeHash) (found : Option ℕ)
    → is_some (last_position h i xs found) ≡ (contains xs h || is_some found)
unfolding last_position contains
last_position-contains h i [] found = refl
last_position-contains h i (x ∷ xs) found =
    last_position-contains h (i + 1) xs (if eqb h x then some i else found)
    ∙ ground (arith, eqb_comm h x)

-- After it is filled, the index knows the hashes of the history's changes.
pub indexed-ensure :
    (s : DocState) (h : ChangeHash)
    → IsCached s
    → indexed (ensure_hash_index s) h ≡ contains (hashes_of s.change_history) h
unfolding indexed
indexed-ensure s h c =
    ap is_some (ensured-IsIndexOf s c h)
    ∙ last_position-contains h 0 (hashes_of s.change_history) none
    ∙ ground arith

-- Of a document whose caches are right for the part of the history they cover, a hash is known
-- exactly if it is the hash of a change of the history.
pub has_change_hash-contains :
    (s : DocState) (h : ChangeHash)
    → IsCached s
    → has_change_hash h s ≡ contains (hashes_of s.change_history) h
unfolding has_change_hash
has_change_hash-contains = indexed-ensure

-- The caches stay right when changes are appended to the history.
pub IsCached-append :
    (s t : DocState) (changes : List Change)
    → IsCached s
    → t.change_history ≡ s.change_history ++ changes
    → t.cached_hashes ≡ s.cached_hashes
    → t.cached_hash_index ≡ s.cached_hash_index
    → IsCached t
IsCached-append s t changes c history hashes index = record {
  old = c.old;
  new = c.new ++ changes;
  history =
      history ∙ ap (λ (l : List Change). l ++ changes) c.history ∙ append_assoc c.old c.new changes;
  hashes = hashes ∙ c.hashes;
  index = λ h.
      ap (find h) index
      ∙ c.index h
      ∙ ap (λ (l : List ChangeHash). last_position h 0 l none) (sym hashes);
}
