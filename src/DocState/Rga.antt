-- ===== src/DocState/Rga.antt =====
-- `find_rga_position` of src/doc_state.hpp: where a remote insert goes in a sequence.
pub mod Fresh
use mathlib.Core.Bool.{not}
use automerge_cpp.Prelude.{ℕ, suc, ◌+◌, if◌then◌else◌, length, drop}
use automerge_cpp.Prelude.{Bool, true, false, ◌&&◌, ◌||◌, Option, none, some, List, [], ◌∷◌}
use automerge_cpp.Prelude.Order.{eqb, lessb}
use automerge_cpp.Types.{OpId, op_id_ord}
use automerge_cpp.DocState.{ListElement, contains}

-- Equality of two origins, `nullopt` being the head of the sequence.
unfoldable pub same_origin : Option OpId → Option OpId → Bool
same_origin none none = true
same_origin (some a) (some b) = eqb a b
same_origin _ _ = false

unfoldable pub origin_in : List OpId → Option OpId → Bool
unfolding contains
origin_in scanned none = false
origin_in scanned (some o) = contains scanned o

-- Step 1: the index behind the origin; `none` if no element has its id.
unfoldable pub index_behind : OpId → List ListElement → Option ℕ
index_behind origin [] = none
index_behind origin (e ∷ es) =
    let rest : Option ℕ = elim (index_behind origin es) [ none ↦ none | some i ↦ some (suc i) ] in
    if eqb e.insert_id origin then some 1 else rest

-- Step 2: how many elements the scan to the right skips. It stops at an element whose origin it has
-- not scanned, and at a sibling whose id is not above the new one.
unfoldable pub scan_right : Option OpId → OpId → List OpId → List ListElement → ℕ
unfolding same_origin origin_in
scan_right origin new_id scanned [] = 0
scan_right origin new_id scanned (e ∷ es) =
    let rest = suc (scan_right origin new_id (e.insert_id ∷ scanned) es) in
    let same = same_origin e.insert_after origin in
    if not (same || origin_in scanned e.insert_after)
    then 0
    else if same && not (lessb new_id e.insert_id)
    then 0
    else rest

-- `find_rga_position`
unfoldable pub find_rga_position : List ListElement → Option OpId → OpId → ℕ
unfolding index_behind scan_right
find_rga_position elements none new_id = scan_right none new_id [] elements
find_rga_position elements (some origin) new_id = elim (index_behind origin elements) [
  | none ↦ length elements
  | some pos ↦ pos + scan_right (some origin) new_id (origin ∷ []) (drop pos elements)
]
