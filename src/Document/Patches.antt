-- ===== src/Document/Patches.antt =====
-- `ops_to_patches` and `transact_with_patches` of src/document.cpp, with the types of
-- include/automerge-cpp/patch.hpp. An insert or a splice whose key is no index makes `std::get` throw,
-- which is `none`.
pub mod Contents
pub mod Rounds
use automerge_cpp.Prelude.{
  ℕ, zero, suc, ◌+◌, if◌then◌else◌, ◌==◌, length, Bool, true, false, ◌&&◌, Option, none, some, List,
  [], ◌∷◌, ◌++◌,
}
use automerge_cpp.Prelude.Order.{eqb}
use automerge_cpp.Types.{
  ObjId, Prop, OpType, Op, ScalarValue, Value, scalar, counter, Str, obj_id_ord,
}
use automerge_cpp.DocState.{DocState}
use automerge_cpp.DocState.ListOps.{text_of}
use automerge_cpp.Transaction.{Transaction, begin}
use automerge_cpp.Transaction.Commit.{commit}

pub data PatchAction : Type 0 where
  put : Value → Bool → PatchAction
  insert : ℕ → Value → PatchAction
  delete : ℕ → ℕ → PatchAction
  increment : ℕ → PatchAction
  splice_text : ℕ → ℕ → Str → PatchAction

pub record Patch : Type 0 where
  pub obj : ObjId
  pub key : Prop
  pub action : PatchAction

abbrev pub is_del : OpType → Bool
is_del OpType.del = true
is_del _ = false

abbrev pub is_splice : OpType → Bool
is_splice OpType.splice_text = true
is_splice _ = false

abbrev pub is_index : ℕ → Prop → Bool
is_index index (Prop.key k) = false
is_index index (Prop.index i) = i == index

-- The deletes of one index that follow: how many, and what comes behind them.
unfoldable pub span_deletes : ObjId → ℕ → List Op → ℕ × List Op
span_deletes obj index [] = (0, [])
span_deletes obj index (o ∷ ops) =
    let (n, rest) = span_deletes obj index ops in
    if is_del o.action && (eqb o.obj obj && is_index index o.key)
    then (suc n, rest)
    else (0, o ∷ ops)

abbrev pub splices : ObjId → Op → Bool
splices obj o = is_splice o.action && eqb o.obj obj

-- The splices into one object that follow: their text, and what comes behind them.
unfoldable pub span_text : ObjId → List Op → Str × List Op
span_text obj [] = ([], [])
span_text obj (o ∷ ops) =
    let (text, rest) = span_text obj ops in
    if splices obj o then (text_of o.value ++ text, rest) else ([], o ∷ ops)

abbrev pub splice_follows : ObjId → List Op → Bool
splice_follows obj [] = false
splice_follows obj (o ∷ ops) = splices obj o

abbrev pub list_patch : ObjId → ℕ → PatchAction → Option Patch
list_patch obj index action = some (record { obj = obj; key = Prop.index index; action = action })

-- `count` deletes of an index, and the splice that they may belong to.
unfoldable pub delete_patch : ObjId → ℕ → ℕ → List Op → Option Patch × List Op
unfolding span_text
delete_patch obj index count rest =
    let (text, rest') = span_text obj rest in
    if splice_follows obj rest
    then (list_patch obj index (PatchAction.splice_text index count text), rest')
    else (list_patch obj index (PatchAction.delete index count), rest)

abbrev pub single : Op → PatchAction → Option Patch
single o action = some (record { obj = o.obj; key = o.key; action = action })

abbrev pub increment_patch : Op → Value → Option Patch
increment_patch o (scalar (counter delta)) = single o (PatchAction.increment delta)
increment_patch o _ = none

-- One round of the loop: the patch, if there is one, and the operations that are left.
abbrev pub patch_by : OpType → Prop → Op → List Op → Option (Option Patch × List Op)
patch_by OpType.del (Prop.index i) o ops =
    let (n, rest) = span_deletes o.obj i ops in some (delete_patch o.obj i (suc n) rest)
patch_by OpType.del (Prop.key k) o ops = some (single o (PatchAction.delete 0 1), ops)
patch_by OpType.splice_text (Prop.index i) o ops =
    let (text, rest) = span_text o.obj (o ∷ ops) in
    some (list_patch o.obj i (PatchAction.splice_text i 0 text), rest)
patch_by OpType.splice_text (Prop.key k) o ops = none
patch_by OpType.put _ o ops = some (single o (PatchAction.put o.value false), ops)
patch_by OpType.make_object _ o ops = some (single o (PatchAction.put o.value false), ops)
patch_by OpType.insert (Prop.index i) o ops = some (single o (PatchAction.insert i o.value), ops)
patch_by OpType.insert (Prop.key k) o ops = none
patch_by OpType.increment _ o ops = some (increment_patch o o.value, ops)
patch_by OpType.mark _ o ops = some (none, ops)

unfoldable pub next_patch : Op → List Op → Option (Option Patch × List Op)
unfolding span_deletes span_text delete_patch
next_patch o ops = patch_by o.action o.key o ops

abbrev pub cons_patch : Option Patch → List Patch → List Patch
cons_patch none patches = patches
cons_patch (some p) patches = p ∷ patches

-- `while (i < ops.size())`: every round takes an operation, so that as many rounds as operations are
-- enough.
unfoldable pub patch_loop : ℕ → List Op → Option (List Patch)
unfolding next_patch
patch_loop zero ops = some []
patch_loop (suc fuel) [] = some []
patch_loop (suc fuel) (o ∷ ops) = elim (next_patch o ops) [
  | none ↦ none
  | some (patch, rest) ↦ elim (patch_loop fuel rest) [
    | none ↦ none
    | some patches ↦ some (cons_patch patch patches)
  ]
]

unfoldable pub ops_to_patches : List Op → Option (List Patch)
unfolding patch_loop
ops_to_patches ops = patch_loop (length ops) ops

-- `transact_with_patches`: what `fn` does with the transaction is a function.
unfoldable transact_with_patches :
    (Transaction → Option Transaction) → DocState → Option (DocState × List Patch)
unfolding begin commit ops_to_patches
transact_with_patches fn s = elim (fn (begin s)) [
  | none ↦ none
  | some tx ↦ elim (ops_to_patches tx.pending_ops) [
    | none ↦ none
    | some patches ↦ some (commit tx, patches)
  ]
]
