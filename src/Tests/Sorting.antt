-- ===== src/Tests/Sorting.antt =====
-- A sort of changes by `start_op`, for the concrete runs.
use mathlib.Core.List.{Perm}
use mathlib.Core.List.Perm
use automerge_cpp.Prelude.{arith, if◌then◌else◌, ltb, Bool-cases, inl, inr, List, [], ◌∷◌}
use automerge_cpp.Types.{Change}
use automerge_cpp.Document.{Sort, IsSortedByStart}

unfoldable insert_change : Change → List Change → List Change
insert_change c [] = c ∷ []
insert_change c (d ∷ l) =
    let rest = insert_change c l in if ltb d.start_op c.start_op then d ∷ rest else c ∷ d ∷ l

unfoldable pub insertion_sort : List Change → List Change
unfolding insert_change
insertion_sort [] = []
insertion_sort (c ∷ l) = insert_change c (insertion_sort l)

insert_change-perm : (c : Change) (l : List Change) → Perm (insert_change c l) (c ∷ l)
unfolding insert_change
insert_change-perm c [] = Perm.rfl
insert_change-perm c (d ∷ l) = elim (Bool-cases (ltb d.start_op c.start_op)) [
  | inl below ↦ rw below (Perm.trans (Perm.cons d (insert_change-perm c l)) (Perm.swap c d l))
  | inr other ↦ rw other Perm.rfl
]

pub insertion_sort-perm : (l : List Change) → Perm (insertion_sort l) l
unfolding insertion_sort
insertion_sort-perm [] = Perm.rfl
insertion_sort-perm (c ∷ l) =
    Perm.trans (insert_change-perm c (insertion_sort l)) (Perm.cons c (insertion_sort-perm l))

insert_change-IsSortedByStart :
    (c : Change) (l : List Change) → IsSortedByStart l → IsSortedByStart (insert_change c l)
unfolding insert_change
insert_change-IsSortedByStart c [] s = tt
insert_change-IsSortedByStart c (d ∷ []) s = elim (Bool-cases (ltb d.start_op c.start_op)) [
  | inl below ↦ rw below (ground arith, tt)
  | inr other ↦ rw other (ground arith, tt)
]
insert_change-IsSortedByStart c (d ∷ e ∷ l) s = elim (Bool-cases (ltb d.start_op c.start_op)) [
  | inl above ↦ elim (Bool-cases (ltb e.start_op c.start_op)) [
    | inl b ↦ rw (above, b) (s.0, rw b at (insert_change-IsSortedByStart c (e ∷ l) s.1))
    | inr b ↦ rw (above, b) (ground arith, (ground arith, s.1))
  ]
  | inr here ↦ rw here (ground arith, s)
]

pub insertion_sort-IsSortedByStart : (l : List Change) → IsSortedByStart (insertion_sort l)
unfolding insertion_sort
insertion_sort-IsSortedByStart [] = tt
insertion_sort-IsSortedByStart (c ∷ l) =
    insert_change-IsSortedByStart c (insertion_sort l) (insertion_sort-IsSortedByStart l)

abbrev pub by_insertion : Sort
by_insertion = record {
  sort = insertion_sort;
  sort-perm = insertion_sort-perm;
  sort-IsSortedByStart = insertion_sort-IsSortedByStart;
}
