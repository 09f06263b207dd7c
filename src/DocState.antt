-- ===== src/DocState.antt =====
-- src/doc_state.hpp: the state of a document, and the lookups that the operations share. The
-- operations stand in the modules below, with their proofs under them.
pub mod MapOps
pub mod ListOps
pub mod Rga
pub mod Apply
pub mod Registers
pub mod Elements
pub mod Queries
pub mod Members
pub mod Hash
pub mod History
pub mod ActorTable
use automerge_cpp.Prelude.{ℕ, ◌+◌, ◌%◌, ◌^◌, ◌≡◌, refl, arith, if◌then◌else◌}
use automerge_cpp.Prelude.{Bool, true, false, ◌||◌, Option, none, some, List, [], ◌∷◌}
use automerge_cpp.Prelude.Order.{Ord, eqb}
use automerge_cpp.Types.{
  ActorId, ChangeHash, OpId, ObjId, ObjType, ScalarValue, Value, Change, Str, root, op, obj_id_ord,
}
use automerge_cpp.OrdMap.{OrdMap}

pub record MapEntry : Type 0 where
  pub op_id : OpId
  pub value : Value

pub record ListElement : Type 0 where
  pub insert_id : OpId
  pub insert_after : Option OpId
  pub value : Value
  pub visible : Bool

pub record MarkEntry : Type 0 where
  pub mark_id : OpId
  pub start_elem : OpId
  pub end_elem : OpId
  pub name : Str
  pub value : ScalarValue

pub record ObjectState : Type 0 where
  pub type : ObjType
  pub map_entries : OrdMap Str (List MapEntry)
  pub list_elements : List ListElement
  pub marks : List MarkEntry

-- `objects` is the `unordered_map` as a function: the program never iterates over it.
pub record DocState : Type 0 where
  pub actor : ActorId
  pub next_counter : ℕ
  pub objects : ObjId → Option ObjectState
  pub change_history : List Change
  pub heads : List ChangeHash
  pub clock : OrdMap ActorId ℕ
  pub local_seq : ℕ
  pub cached_hashes : List ChangeHash
  pub cached_hash_index : OrdMap ChangeHash ℕ

-- `objects[id] = st`
unfoldable pub set_object : ObjId → ObjectState → DocState → DocState
set_object id st s = record s { objects = λ j. if eqb j id then some st else s.objects j }

abbrev pub empty_object : ObjType → ObjectState
empty_object type = record { type = type; map_entries = []; list_elements = []; marks = [] }

-- `DocState()`, with the actor given.
unfoldable pub initial : ActorId → DocState
initial actor = record {
  actor = actor;
  next_counter = 1;
  objects = λ j. if eqb j root then some (empty_object ObjType.map) else none;
  change_history = [];
  heads = [];
  clock = [];
  local_seq = 0;
  cached_hashes = [];
  cached_hash_index = [];
}

-- A 64-bit counter after `++`.
abbrev pub suc_u64 : ℕ → ℕ
suc_u64 n = (n + 1) % 2 ^ 64

-- `next_op_id`: the id for a new operation, and the state with the counter moved on.
unfoldable pub next_op_id : DocState → OpId × DocState
next_op_id s = (
  record { counter = s.next_counter; actor = s.actor },
  record s { next_counter = suc_u64 s.next_counter },
)

unfoldable pub get_object : ObjId → DocState → Option ObjectState
get_object id s = s.objects id

-- `create_object`
unfoldable pub create_object : OpId → ObjType → DocState → DocState
unfolding set_object
create_object id type s = set_object (op id) (empty_object type) s

-- A mutation through the pointer that `get_object` returns; without an object nothing happens.
unfoldable pub modify_object : ObjId → (ObjectState → ObjectState) → DocState → DocState
unfolding set_object get_object
modify_object id f s = elim (get_object id s) [ none ↦ s | some st ↦ set_object id (f st) s ]

-- `std::ranges::find(ids, id) != ids.end()`
unfoldable pub contains {ℓ} : {A : Type ℓ} ⦃o : Ord A⦄ → List A → A → Bool
contains [] a = false
contains (x ∷ xs) a = eqb x a || contains xs a
