-- ===== src/Tests/Transactions.antt =====
-- Transactions on a document with a map, the root, and a list of two elements.
use automerge_cpp.Prelude.{
  ℕ, ◌+◌, ◌≡◌, ◌≢◌, ◌↔◌, refl, arith, Bool, true, false, Option, none, some, [], ◌∷◌,
}
use automerge_cpp.Prelude.Order.{compare_bytes}
use automerge_cpp.Types.{
  ActorId, ObjId, ObjType, Op, Str, ScalarValue, root, op, scalar, string, compare_obj_id,
}
use automerge_cpp.DocState.{DocState, ObjectState, ListElement, initial, get_object, set_object}
use automerge_cpp.DocState.ListOps.{count_visible}
use automerge_cpp.DocState.Rga.Fresh.{IsTight}
use automerge_cpp.Transaction.{
  Transaction, begin, put, put_object, delete_key, insert, set, delete_index,
}
use automerge_cpp.Transaction.Replay.{Replays}
use automerge_cpp.Transaction.Replay.Maps.{put-Replays, put_object-Replays, delete_key-Replays}
use automerge_cpp.Transaction.Replay.Insert.{insert-Replays_iff}
use automerge_cpp.Transaction.Replay.Elements.{set-Replays, delete_index-Replays}
use automerge_cpp.Types.{OpType, Prop, compare_op_id}
use automerge_cpp.DocState.{contains}
use automerge_cpp.DocState.Apply.{apply_op}
use automerge_cpp.DocState.Elements.{elements, first_value, sets_diverge}
use automerge_cpp.DocState.{MarkEntry}
use automerge_cpp.DocState.Rga.Fresh.{Distinct}
use automerge_cpp.DocState.Queries.{resolve_mark_indices, IsVisibleAt, resolve_mark_indices_iff}

abbrev alice : ActorId
alice = record { bytes = 1 ∷ [] }

abbrev text : ℕ → ScalarValue
text c = string (c ∷ [])

abbrev element : ℕ → Bool → ListElement
element n visible = record {
  insert_id = record { counter = n; actor = alice };
  insert_after = none;
  value = scalar (text n);
  visible = visible;
}

-- The list has a tombstone in front of its visible element.
abbrev list_state : ObjectState
list_state = record {
  type = ObjType.list;
  map_entries = [];
  list_elements = element 2 false ∷ element 3 true ∷ [];
  marks = [];
}

abbrev list_id : ObjId
list_id = op (record { counter = 1; actor = alice })

abbrev state : DocState
state = set_object list_id list_state (record (initial alice) { next_counter = 4 })

abbrev tx : Transaction
tx = begin state

abbrev from_some {ℓ} : {A : Type ℓ} → Option A → A → A
from_some none d = d
from_some (some a) d = a

abbrev title : Str
title = b't' ∷ []

list-there : get_object list_id (begin state).state ≡ some list_state
unfolding get_object set_object initial compare_obj_id begin compare_bytes
list-there = refl

put-Replays_example : Replays tx (from_some (put root title (text 7) tx) tx)
unfolding put set_object initial compare_obj_id compare_bytes begin
put-Replays_example = put-Replays root title (text 7) tx (omega arith) refl

delete_key-Replays_example : Replays tx (from_some (delete_key root title tx) tx)
unfolding delete_key set_object initial compare_obj_id compare_bytes begin
delete_key-Replays_example = delete_key-Replays root title tx (omega arith) refl

put_object-Replays_example :
    Replays tx (from_some (put_object root title ObjType.map tx) (root, tx)).1
unfolding put_object set_object initial compare_obj_id compare_bytes begin
put_object-Replays_example =
    put_object-Replays root title ObjType.map tx
      {r = from_some (put_object root title ObjType.map tx) (root, tx)} (omega arith) refl refl

set-Replays_example : Replays tx (from_some (set list_id 0 (text 7) tx) tx)
unfolding set set_object initial compare_obj_id compare_bytes begin
set-Replays_example =
    set-Replays list_id 0 (text 7) tx list_state (omega arith) refl ((refl, tt), (tt, tt)) refl

delete_index-Replays_example : Replays tx (from_some (delete_index list_id 0 tx) tx)
unfolding delete_index set_object initial compare_obj_id compare_bytes begin
delete_index-Replays_example =
    delete_index-Replays list_id 0 tx list_state (omega arith) refl ((refl, tt), (tt, tt)) refl

insert-Replays_iff_example :
    (o : Op) × ((from_some (insert list_id 0 (text 7) tx) tx).pending_ops ≡ o ∷ [])
    × ((apply_op o tx.state ≡ (from_some (insert list_id 0 (text 7) tx) tx).state)
        ↔ IsTight list_state.list_elements 0)
unfolding insert set_object initial compare_obj_id compare_bytes begin count_visible
insert-Replays_iff_example =
    insert-Replays_iff list_id 0 (text 7) tx list_state (omega arith) refl ((refl, tt), (tt, tt))
      (refl, (refl, tt)) (omega arith) refl

-- A put at index 0 of the list, by a replica that sees the state.
abbrev set_by : ℕ → ℕ → Op
set_by actor c = record {
  id = record { counter = 4; actor = record { bytes = actor ∷ [] } };
  obj = list_id;
  key = Prop.index 0;
  action = OpType.put;
  value = scalar (text c);
  pred = record { counter = 3; actor = alice } ∷ [];
  insert_after = none;
}

abbrev set_a : Op
set_a = set_by 1 7

abbrev set_b : Op
set_b = set_by 2 8

state-list : get_object list_id state ≡ some list_state
unfolding get_object set_object initial compare_obj_id compare_bytes
state-list = refl

names_element : first_value set_a.pred list_state.list_elements ≢ none
unfolding first_value contains compare_op_id compare_bytes
names_element e = cc e

sets_diverge_example :
    elements list_id (apply_op set_b (apply_op set_a state))
    ≢ elements list_id (apply_op set_a (apply_op set_b state))
sets_diverge_example =
    sets_diverge set_a set_b 0 0 state refl refl refl refl refl refl (λ e. cc e) state-list
      names_element

-- A mark whose both ends are the visible element, which has a tombstone before it.
abbrev bold : MarkEntry
bold = record {
  mark_id = record { counter = 4; actor = alice };
  start_elem = record { counter = 3; actor = alice };
  end_elem = record { counter = 3; actor = alice };
  name = title;
  value = text 1;
}

bold_range : resolve_mark_indices list_state bold ≡ some (0, 1)
unfolding resolve_mark_indices compare_op_id compare_bytes
bold_range = refl

list_state-Distinct : Distinct list_state.list_elements
unfolding compare_op_id
list_state-Distinct = ((refl, tt), (tt, tt))

resolve_mark_indices_iff_example : (resolve_mark_indices list_state bold ≡ some (0, 1)) ↔ (
    IsVisibleAt bold.start_elem list_state.list_elements 0
    × ((last : ℕ) × IsVisibleAt bold.end_elem list_state.list_elements last × (1 ≡ last + 1)))
resolve_mark_indices_iff_example = resolve_mark_indices_iff list_state bold 0 1 list_state-Distinct
