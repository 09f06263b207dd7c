-- ===== src/DocState/Apply.antt =====
-- `apply_op` of src/doc_state.hpp: one operation of another replica, by its action.
use mathlib.Core.Bool.{not}
use automerge_cpp.Prelude.{ℕ, max, if◌then◌else◌, filter, insert_at}
use automerge_cpp.Prelude.{true, false, none, some, List, [], ◌∷◌, ◌++◌, map}
use automerge_cpp.Types.{
  OpId, ScalarValue, Value, Prop, Op, OpType, Str, op_id_ord, scalar, object, op, counter, null,
}
use automerge_cpp.Prelude.Order.{bytes_ord}
use automerge_cpp.OrdMap.{find, assign, erase}
use automerge_cpp.DocState.{
  MapEntry, ListElement, ObjectState, DocState, suc_u64, get_object, create_object, modify_object,
  contains,
}
use automerge_cpp.DocState.MapOps.{or_empty, add_counter}
use automerge_cpp.DocState.Rga.{find_rga_position}

-- `std::erase_if` of the entries that the operation overrides.
unfoldable pub without_pred : List OpId → List MapEntry → List MapEntry
unfolding contains
without_pred pred entries = filter (λ e. not (contains pred e.op_id)) entries

-- A put at a map key: the overridden values go, concurrent ones stay beside the new one.
unfoldable pub apply_map_put : Op → Str → ObjectState → ObjectState
unfolding without_pred find assign
apply_map_put o k state = record state {
  map_entries =
      assign k
        (without_pred o.pred (or_empty (find k state.map_entries))
          ++ (record { op_id = o.id; value = o.value } ∷ []))
        state.map_entries;
}

-- The first element that the operation names as its predecessor is changed.
unfoldable pub modify_first :
    List OpId → (ListElement → ListElement) → List ListElement → List ListElement
unfolding contains
modify_first pred f [] = []
modify_first pred f (e ∷ es) =
    let rest = modify_first pred f es in if contains pred e.insert_id then f e ∷ es else e ∷ rest

unfoldable pub apply_list_set : Op → ObjectState → ObjectState
unfolding modify_first
apply_list_set o state = record state {
  list_elements = modify_first o.pred (λ e. record e { value = o.value }) state.list_elements;
}

unfoldable pub apply_insert : Op → ObjectState → ObjectState
unfolding find_rga_position
apply_insert o state = record state {
  list_elements =
      insert_at (find_rga_position state.list_elements o.insert_after o.id)
        (record {
          insert_id = o.id;
          insert_after = o.insert_after;
          value = o.value;
          visible = true;
        })
        state.list_elements;
}

-- A key whose last entry is deleted is erased.
abbrev pub store_entries : Str → List MapEntry → ObjectState → ObjectState
store_entries k [] state = record state { map_entries = erase k state.map_entries }
store_entries k (e ∷ es) state = record state { map_entries = assign k (e ∷ es) state.map_entries }

unfoldable pub apply_map_delete : Op → Str → ObjectState → ObjectState
unfolding without_pred find assign erase
apply_map_delete o k state = elim (find k state.map_entries) [
  | none ↦ state
  | some entries ↦ store_entries k (without_pred o.pred entries) state
]

unfoldable pub apply_list_delete : Op → ObjectState → ObjectState
unfolding modify_first
apply_list_delete o state = record state {
  list_elements = modify_first o.pred (λ e. record e { visible = false }) state.list_elements;
}

-- `counter->value += delta` on an entry that holds a counter; others are passed over.
unfoldable pub increment_entry : ℕ → MapEntry → MapEntry
unfolding add_counter
increment_entry delta e = elim (add_counter delta e.value) [
  | none ↦ e
  | some v ↦ record e { value = v }
]

unfoldable pub increment_entries : Value → List MapEntry → List MapEntry
unfolding increment_entry
increment_entries (scalar (counter delta)) entries = map (increment_entry delta) entries
increment_entries value entries = entries

unfoldable pub apply_increment : Op → Str → ObjectState → ObjectState
unfolding increment_entries find assign
apply_increment o k state = elim (find k state.map_entries) [
  | none ↦ state
  | some entries ↦ record state {
    map_entries = assign k (increment_entries o.value entries) state.map_entries;
  }
]

abbrev pub scalar_or_null : Value → ScalarValue
scalar_or_null (scalar v) = v
scalar_or_null (object t) = null

-- A mark has the ids of its first and its last element as predecessors.
unfoldable pub apply_mark : Op → Str → List OpId → ObjectState → ObjectState
apply_mark o k (start ∷ end ∷ pred) state = record state {
  marks =
      state.marks
      ++ (record {
        mark_id = o.id;
        start_elem = start;
        end_elem = end;
        name = k;
        value = scalar_or_null o.value;
      }
          ∷ []);
}
apply_mark o k _ state = state

-- The `switch` on the action; a string key makes the operation one on a map.
unfoldable pub apply_action : OpType → Prop → Op → ObjectState → ObjectState
unfolding apply_map_put apply_list_set apply_insert apply_map_delete apply_list_delete
    apply_increment apply_mark
apply_action OpType.put (Prop.key k) o state = apply_map_put o k state
apply_action OpType.put (Prop.index i) o state = apply_list_set o state
apply_action OpType.make_object (Prop.key k) o state = apply_map_put o k state
apply_action OpType.make_object (Prop.index i) o state = apply_list_set o state
apply_action OpType.insert k o state = apply_insert o state
apply_action OpType.splice_text k o state = apply_insert o state
apply_action OpType.del (Prop.key k) o state = apply_map_delete o k state
apply_action OpType.del (Prop.index i) o state = apply_list_delete o state
apply_action OpType.increment (Prop.key k) o state = apply_increment o k state
apply_action OpType.increment (Prop.index i) o state = state
apply_action OpType.mark (Prop.key k) o state = apply_mark o k o.pred state
apply_action OpType.mark (Prop.index i) o state = state

-- The object that a value of object type stands for is created if it is not there.
unfoldable pub ensure_nested : OpId → Value → DocState → DocState
unfolding get_object create_object
ensure_nested id (scalar v) s = s
ensure_nested id (object t) s = elim (get_object (op id) s) [
  | none ↦ create_object id t s
  | some state ↦ s
]

unfoldable pub advance_counter : OpId → DocState → DocState
advance_counter id s = record s { next_counter = max s.next_counter (suc_u64 id.counter) }

-- `apply_op`
unfoldable pub apply_op : Op → DocState → DocState
unfolding advance_counter ensure_nested modify_object apply_action
apply_op o s =
    modify_object o.obj (apply_action o.action o.key o)
      (ensure_nested o.id o.value (advance_counter o.id s))
