-- ===== src/DocState/MapOps.antt =====
-- Map operations of src/doc_state.hpp. `none` is a failed `assert`.
use automerge_cpp.Prelude.{ℕ, if◌then◌else◌, map}
use automerge_cpp.Prelude.{Bool, true, false, Option, none, some, List, [], ◌∷◌}
use automerge_cpp.Prelude.Order.{lessb, bytes_ord}
use automerge_cpp.Types.{
  OpId, ObjId, ObjType, Value, Str, add_i64, op_id_ord, scalar, object, op, counter,
}
use automerge_cpp.OrdMap.{OrdMap, find, assign, erase}
use automerge_cpp.DocState.{MapEntry, ObjectState, DocState, set_object, get_object}

abbrev pub or_empty {ℓ} : {A : Type ℓ} → Option (List A) → List A
or_empty none = []
or_empty (some l) = l

-- `map_pred`: the ids of the values that a write to the key overrides.
unfoldable pub map_pred : ObjId → Str → DocState → List OpId
unfolding get_object find
map_pred obj key s = elim (get_object obj s) [
  | none ↦ []
  | some state ↦ map (λ e. e.op_id) (or_empty (find key state.map_entries))
]

-- The types of object that a map operation accepts.
unfoldable pub is_map_type : ObjType → Bool
is_map_type ObjType.map = true
is_map_type ObjType.table = true
is_map_type _ = false

-- `get_object` with its `assert` on the type.
unfoldable pub expect_object : (ObjType → Bool) → ObjId → DocState → Option ObjectState
unfolding get_object
expect_object accepts obj s = elim (get_object obj s) [
  | none ↦ none
  | some state ↦ if accepts state.type then some state else none
]

abbrev pub update_object :
    (ObjType → Bool) → ObjId → (ObjectState → ObjectState) → DocState → Option DocState
update_object accepts obj f s = elim (expect_object accepts obj s) [
  | none ↦ none
  | some state ↦ some (set_object obj (f state) s)
]

unfoldable pub put_entry : Str → OpId → Value → ObjectState → ObjectState
unfolding assign
put_entry key id value state = record state {
  map_entries = assign key (record { op_id = id; value = value } ∷ []) state.map_entries;
}

-- `map_put`
unfoldable pub map_put : ObjId → Str → OpId → Value → DocState → Option DocState
unfolding expect_object is_map_type set_object put_entry
map_put obj key id value s = update_object is_map_type obj (put_entry key id value) s

unfoldable pub delete_entry : Str → ObjectState → ObjectState
unfolding erase
delete_entry key state = record state { map_entries = erase key state.map_entries }

-- `map_delete`
unfoldable pub map_delete : ObjId → Str → DocState → Option DocState
unfolding expect_object is_map_type set_object delete_entry
map_delete obj key s = update_object is_map_type obj (delete_entry key) s

-- `std::ranges::max_element` by operation id: the first of the largest.
unfoldable pub largest : MapEntry → List MapEntry → MapEntry
largest best [] = best
largest best (e ∷ es) = largest (if lessb best.op_id e.op_id then e else best) es

unfoldable pub max_element : List MapEntry → Option MapEntry
unfolding largest
max_element [] = none
max_element (e ∷ es) = some (largest e es)

abbrev pub entries_at : ObjId → Str → DocState → Option (List MapEntry)
entries_at obj key s = elim (get_object obj s) [
  | none ↦ none
  | some state ↦ find key state.map_entries
]

abbrev pub value_of : Option MapEntry → Option Value
value_of none = none
value_of (some e) = some e.value

-- `map_get`: the value of the winning entry.
unfoldable pub map_get : ObjId → Str → DocState → Option Value
unfolding get_object find max_element
map_get obj key s = value_of (max_element (or_empty (entries_at obj key s)))

-- `map_get_all`: the values of all entries of the key, the conflicts.
unfoldable pub map_get_all : ObjId → Str → DocState → List Value
unfolding get_object find
map_get_all obj key s = map (λ e. e.value) (or_empty (entries_at obj key s))

abbrev pub keys : OrdMap Str (List MapEntry) → List Str
keys m = map (λ p. p.0) m

-- `map_keys`
unfoldable pub map_keys : ObjId → DocState → List Str
unfolding get_object
map_keys obj s = elim (get_object obj s) [ none ↦ [] | some state ↦ keys state.map_entries ]

unfoldable pub winning_values : OrdMap Str (List MapEntry) → List Value
unfolding max_element
winning_values [] = []
winning_values ((key, entries) ∷ m) = elim (max_element entries) [
  | none ↦ winning_values m
  | some winner ↦ winner.value ∷ winning_values m
]

-- `map_values`: the winning value of each key.
unfoldable pub map_values : ObjId → DocState → List Value
unfolding get_object winning_values
map_values obj s = elim (get_object obj s) [
  | none ↦ []
  | some state ↦ winning_values state.map_entries
]

abbrev pub nested_id : Option MapEntry → Option ObjId
nested_id none = none
nested_id (some e) = elim e.value [ object t ↦ some (op e.op_id) | scalar v ↦ none ]

-- `get_obj_id_for_key`
unfoldable pub get_obj_id_for_key : ObjId → Str → DocState → Option ObjId
unfolding get_object find max_element
get_obj_id_for_key obj key s = nested_id (max_element (or_empty (entries_at obj key s)))

-- `counter->value += delta` on a value, `none` if it holds no counter.
unfoldable pub add_counter : ℕ → Value → Option Value
unfolding add_i64
add_counter delta (scalar (counter n)) = some (scalar (counter (add_i64 n delta)))
add_counter delta value = none

-- `counter_increment` takes the last entry of the key, `back()`.
unfoldable pub increment_last : ℕ → List MapEntry → Option (List MapEntry)
unfolding add_counter
increment_last delta [] = none
increment_last delta (e ∷ []) = elim (add_counter delta e.value) [
  | none ↦ none
  | some v ↦ some (record e { value = v } ∷ [])
]
increment_last delta (e ∷ f ∷ es) = elim (increment_last delta (f ∷ es)) [
  | none ↦ none
  | some rest ↦ some (e ∷ rest)
]

abbrev pub increment_key : Str → ℕ → ObjectState → Option ObjectState
increment_key key delta state =
    elim (increment_last delta (or_empty (find key state.map_entries))) [
      | none ↦ none
      | some entries ↦ some (record state { map_entries = assign key entries state.map_entries })
    ]

-- `counter_increment`
unfoldable pub counter_increment : ObjId → Str → ℕ → DocState → Option DocState
unfolding expect_object is_map_type set_object increment_last find assign
counter_increment obj key delta s = elim (expect_object is_map_type obj s) [
  | none ↦ none
  | some state ↦ elim (increment_key key delta state) [
    | none ↦ none
    | some state' ↦ some (set_object obj state' s)
  ]
]
