-- ===== src/Sync/Protocol/Send.antt =====
-- Which changes a document sends to a peer.
use automerge_cpp.Prelude.{
  suc, ◌+◌, ◌≡◌, ◌↔◌, ◌⊎◌, refl, ap, ◌∙◌, arith, filter, length, All, Bool-cases, inl, inr,
}
use automerge_cpp.Prelude.{Bool, true, false, not, ◌&&◌, ◌||◌, Option, List, [], ◌∷◌, ◌++◌}
use automerge_cpp.Prelude.Order.{eqb, eqb-eq, eqb_refl, eqb_comm}
use automerge_cpp.Types.{ChangeHash, hash_ord}
use automerge_cpp.OrdMap.{OrdMap, find, assign, find-assign}
use automerge_cpp.DocState.{DocState, contains}
use automerge_cpp.DocState.MapOps.{or_empty}
use automerge_cpp.DocState.Members.{contains-append, contains-filter}
use automerge_cpp.DocState.History.{deps_of, ensure_hash_index, get_changes_since}
use automerge_cpp.DocState.History.Since.{All-Has}
use automerge_cpp.DocState.History.Walk.{Has}
use automerge_cpp.DocState.History.Ancestors.{Ancestor, start, parent, walk-Ancestor_iff}
use automerge_cpp.Sync.Bloom.{BloomFilter}
use automerge_cpp.Sync.Protocol.{
  Have, add_dependents, dependents_map, in_any, hashes_to_send, send_list, get_hashes_to_send,
  bloom_filters, last_sync_heads,
}

abbrev Dependents : Type 0
Dependents = OrdMap ChangeHash (List ChangeHash)

-- The dependents of a hash in the map.
abbrev listed : Dependents → ChangeHash → List ChangeHash
listed m d = or_empty (find d m)

regroup : (p a b e : Bool) → ((p || (a && e)) || (b && e)) ≡ (p || ((a || b) && e))
regroup true a b e = refl
regroup false true b e = ground arith
regroup false false b e = refl

listed-assign :
    (x h d g : ChangeHash) (m : Dependents)
    → contains (listed (assign x (listed m x ++ (h ∷ [])) m) d) g
      ≡ (contains (listed m d) g || (eqb x d && eqb h g))
listed-assign x h d g m = elim (Bool-cases (eqb d x)) [
  | inl same ↦
      let e : d ≡ x = eqb-eq d x same in
      ap (λ (t : Option (List ChangeHash)). contains (or_empty t) g)
        (find-assign x d (listed m x ++ (h ∷ [])) m)
      ∙ rw same (
          contains-append (listed m x) (h ∷ []) g
          ∙ unfold contains in
            rw (e, eqb_refl x) (ap (◌||◌ (contains (listed m x) g)) (last_one (eqb h g))))
  | inr other ↦
      ap (λ (t : Option (List ChangeHash)). contains (or_empty t) g)
        (find-assign x d (listed m x ++ (h ∷ [])) m)
      ∙ ground (arith, other, eqb_comm x d)
]
  where
    last_one : (b : Bool) → (b || false) ≡ b
    last_one true = refl
    last_one false = refl

listed-add :
    (h d g : ChangeHash) (deps : List ChangeHash) (m : Dependents)
    → contains (listed (add_dependents h deps m) d) g
      ≡ (contains (listed m d) g || (contains deps d && eqb h g))
unfolding add_dependents contains
listed-add h d g [] m = ground arith
listed-add h d g (x ∷ deps) m =
    listed-add h d g deps (assign x (listed m x ++ (h ∷ [])) m)
    ∙ ap (λ (t : Bool). t || (contains deps d && eqb h g)) (listed-assign x h d g m)
    ∙ regroup (contains (listed m d) g) (eqb x d) (contains deps d) (eqb h g)

listed-map :
    (s : DocState) (d g : ChangeHash) (hashes : List ChangeHash) (m : Dependents)
    → contains (listed (dependents_map s hashes m) d) g
      ≡ (contains (listed m d) g || (contains hashes g && contains (deps_of s g) d))
unfolding dependents_map contains
listed-map s d g [] m = ground arith
listed-map s d g (h ∷ hashes) m =
    let same_deps : eqb h g ≡ true → contains (deps_of s h) d ≡ contains (deps_of s g) d =
      λ e. ap (λ (t : ChangeHash). contains (deps_of s t) d) (eqb-eq h g e) in
    listed-map s d g hashes (add_dependents h (deps_of s h) m)
    ∙ ap (λ (t : Bool). t || (contains hashes g && contains (deps_of s g) d))
        (listed-add h d g (deps_of s h) m)
    ∙ join (contains (listed m d) g) (contains (deps_of s h) d) (eqb h g) (contains hashes g)
        (contains (deps_of s g) d) same_deps
  where
    join :
        (p a e c b : Bool)
        → (e ≡ true → a ≡ b)
        → ((p || (a && e)) || (c && b)) ≡ (p || ((e || c) && b))
    join true a e c b h = refl
    join false a true c b h = ground (arith, h refl)
    join false true false c b h = refl
    join false false false c b h = refl

-- `hashes` is what the document has since the last sync.
module _ (s : DocState) (filters : List BloomFilter) (hashes : List ChangeHash) where
  abbrev dependents : ChangeHash → List ChangeHash
  dependents d = listed (dependents_map s hashes []) d

  abbrev starts : List ChangeHash
  starts = filter (λ h. not (in_any filters h)) hashes

  Has-dependents :
      (d g : ChangeHash)
      → contains (dependents d) g ≡ (contains hashes g && contains (deps_of s g) d)
  unfolding contains find
  Has-dependents d g = listed-map s d g hashes []

  dependents-in : (d : ChangeHash) → All (Has hashes) (dependents d)
  dependents-in d = All-Has (dependents d) hashes (λ g p. ground (arith, Has-dependents d g))

  -- What is sent is what no filter has, and what depends on it.
  to_send_iff :
      (g : ChangeHash) → Has (hashes_to_send s filters hashes) g ↔ Ancestor dependents starts g
  unfolding hashes_to_send
  to_send_iff =
      walk-Ancestor_iff (suc (length starts + length hashes)) dependents starts hashes dependents-in
        (omega arith)

  to_send-start :
      (g : ChangeHash)
      → Has hashes g
      → in_any filters g ≡ false
      → Has (hashes_to_send s filters hashes) g
  to_send-start g here out =
      (to_send_iff g).1
        (start (ground (arith, contains-filter (λ h. not (in_any filters h)) hashes g)))

  to_send-dependent :
      (d g : ChangeHash)
      → Has (hashes_to_send s filters hashes) d
      → Has hashes g
      → Has (deps_of s g) d
      → Has (hashes_to_send s filters hashes) g
  to_send-dependent d g sent here dep =
      (to_send_iff g).1 (parent ((to_send_iff d).0 sent) (ground (arith, Has-dependents d g)))

  to_send-in : (g : ChangeHash) → Has (hashes_to_send s filters hashes) g → Has hashes g
  to_send-in g p = from ((to_send_iff g).0 p)
    where
      from : {a : ChangeHash} → Ancestor dependents starts a → Has hashes a
      from {a} (start q) = ground (arith, contains-filter (λ h. not (in_any filters h)) hashes a)
      from {a} (parent {b = b} anc dep) = ground (arith, Has-dependents b a)

-- A change is due if no filter of the peer has it, or if it depends on one that is due.
pub data IsDue (s : DocState) (filters : List BloomFilter) (hashes : List ChangeHash)
    : ChangeHash → Type 0 where
  unknown : {g : ChangeHash} → Has hashes g → in_any filters g ≡ false → IsDue s filters hashes g
  follows :
      {d g : ChangeHash}
      → IsDue s filters hashes d
      → Has hashes g
      → Has (deps_of s g) d
      → IsDue s filters hashes g

IsDue-sent :
    (s : DocState) (filters : List BloomFilter) (hashes : List ChangeHash) {g : ChangeHash}
    → IsDue s filters hashes g
    → Has (hashes_to_send s filters hashes) g
IsDue-sent s filters hashes (unknown {g = g} here out) = to_send-start s filters hashes g here out
IsDue-sent s filters hashes (follows {d = d} {g = g} due here dep) =
    to_send-dependent s filters hashes d g (IsDue-sent s filters hashes due) here dep

Ancestor-IsDue :
    (s : DocState) (filters : List BloomFilter) (hashes : List ChangeHash) {g : ChangeHash}
    → Ancestor (dependents s filters hashes) (starts s filters hashes) g
    → IsDue s filters hashes g
Ancestor-IsDue s filters hashes {g} (start q) =
    let p = contains-filter (λ h. not (in_any filters h)) hashes g in
    unknown (ground (arith, p)) (ground (arith, p))
Ancestor-IsDue s filters hashes {g} (parent {b = d} anc dep) =
    let p = Has-dependents s filters hashes d g in
    follows (Ancestor-IsDue s filters hashes anc) (ground (arith, p)) (ground (arith, p))

-- What a document sends to a peer that has told what it has: exactly the hashes that the peer asks
-- for, and the changes since the last sync that are due.
pub get_hashes_to_send_iff :
    (s : DocState) (h : Have) (have : List Have) (need : List ChangeHash) (g : ChangeHash)
    → Has (get_hashes_to_send s (h ∷ have) need) g ↔ (
        Has need g
        ⊎ IsDue
            (ensure_hash_index s)
            (bloom_filters (h ∷ have))
            (get_changes_since (last_sync_heads (h ∷ have)) s)
            g)
unfolding get_hashes_to_send send_list
get_hashes_to_send_iff s h have need g =
    let s' = ensure_hash_index s in
    let filters = bloom_filters (h ∷ have) in
    let hashes = get_changes_since (last_sync_heads (h ∷ have)) s in
    let to_send = hashes_to_send s' filters hashes in
    let split =
      contains-append (filter (λ x. not (contains to_send x)) need)
        (filter (λ x. contains to_send x) hashes) g in
    let asked = contains-filter (λ x. not (contains to_send x)) need g in
    let added = contains-filter (λ x. contains to_send x) hashes g in
    (
      λ p. elim (Bool-cases (contains to_send g)) [
        | inl sent ↦
            inr (Ancestor-IsDue s' filters hashes ((to_send_iff s' filters hashes g).0 sent))
        | inr not_sent ↦ inl (ground (arith, split, asked, added))
      ],
      λ p. elim (Bool-cases (contains to_send g)) [
        | inl sent ↦
            let there = to_send-in s' filters hashes g sent in ground (arith, split, asked, added)
        | inr not_sent ↦ elim p [
          | inl needed ↦ ground (arith, split, asked, added)
          | inr due ↦ absurd (cc (IsDue-sent s' filters hashes due, not_sent))
        ]
      ],
    )
