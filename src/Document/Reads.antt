-- ===== src/Document/Reads.antt =====
-- The reads of src/document.cpp: of the present, at given heads, by a cursor and along a path.
pub mod Cursors
use automerge_cpp.Prelude.{ℕ, ◌≡◌, if◌then◌else◌, Option, none, some, List, [], ◌∷◌, ◌>>=◌}
use automerge_cpp.Types.{
  ChangeHash, OpId, ObjId, root, Prop, ObjType, ScalarValue, Value, object, scalar, Str,
}
use automerge_cpp.DocState.{DocState, ObjectState, MarkEntry, get_object}
use automerge_cpp.DocState.MapOps.{map_get, map_keys, map_values}
use automerge_cpp.DocState.ListOps.{
  list_get, list_values, text_content, get_obj_id_at, list_element_id_at,
  find_element_visible_index,
}
use automerge_cpp.DocState.Queries.{object_type, object_length, resolve_mark_indices}
use automerge_cpp.DocState.History.{rebuild_state_at}

abbrev values_by_type : ObjType → ObjId → DocState → List Value
values_by_type ObjType.map obj s = map_values obj s
values_by_type ObjType.table obj s = map_values obj s
values_by_type ObjType.list obj s = list_values obj s
values_by_type ObjType.text obj s = list_values obj s

-- `values`
unfoldable values : ObjId → DocState → List Value
unfolding object_type map_values list_values
values obj s = elim (object_type obj s) [ none ↦ [] | some type ↦ values_by_type type obj s ]

-- `get_at`, of a key and of an index.
unfoldable pub get_at : ObjId → Str → List ChangeHash → DocState → Option Value
unfolding rebuild_state_at map_get
get_at obj key heads s = map_get obj key (rebuild_state_at heads s)

unfoldable get_index_at : ObjId → ℕ → List ChangeHash → DocState → Option Value
unfolding rebuild_state_at list_get
get_index_at obj index heads s = list_get obj index (rebuild_state_at heads s)

unfoldable keys_at : ObjId → List ChangeHash → DocState → List Str
unfolding rebuild_state_at map_keys
keys_at obj heads s = map_keys obj (rebuild_state_at heads s)

unfoldable values_at : ObjId → List ChangeHash → DocState → List Value
unfolding rebuild_state_at values
values_at obj heads s = values obj (rebuild_state_at heads s)

unfoldable length_at : ObjId → List ChangeHash → DocState → ℕ
unfolding rebuild_state_at object_length
length_at obj heads s = object_length obj (rebuild_state_at heads s)

unfoldable text_at : ObjId → List ChangeHash → DocState → Str
unfolding rebuild_state_at text_content
text_at obj heads s = text_content obj (rebuild_state_at heads s)

-- include/automerge-cpp/cursor.hpp
pub record Cursor : Type 0 where
  pub position : OpId

unfoldable pub cursor : ObjId → ℕ → DocState → Option Cursor
unfolding list_element_id_at
cursor obj index s = do id ← list_element_id_at obj index s; some (record { position = id })

unfoldable pub resolve_cursor : ObjId → Cursor → DocState → Option ℕ
unfolding find_element_visible_index
resolve_cursor obj cur s = find_element_visible_index obj cur.position s

-- include/automerge-cpp/mark.hpp
record Mark : Type 0 where
  start : ℕ
  «end» : ℕ
  name : Str
  value : ScalarValue

abbrev marks_of : ObjectState → List MarkEntry → List Mark
marks_of state [] = []
marks_of state (entry ∷ entries) = elim (resolve_mark_indices state entry) [
  | none ↦ marks_of state entries
  | some (from, to) ↦
      record { start = from; «end» = to; name = entry.name; value = entry.value }
      ∷ marks_of state entries
]

unfoldable collect_marks : ObjId → DocState → List Mark
unfolding get_object resolve_mark_indices
collect_marks obj s = elim (get_object obj s) [
  | none ↦ []
  | some state ↦ marks_of state state.marks
]

unfoldable marks_at : ObjId → List ChangeHash → DocState → List Mark
unfolding rebuild_state_at collect_marks
marks_at obj heads s = collect_marks obj (rebuild_state_at heads s)

-- `std::visit` of a path element.
unfoldable get_prop : ObjId → Prop → DocState → Option Value
unfolding map_get list_get
get_prop obj (Prop.key key) s = map_get obj key s
get_prop obj (Prop.index index) s = list_get obj index s

-- The object behind a path element, if an object stands there.
unfoldable child : ObjId → Prop → DocState → Option ObjId
unfolding get_prop get_obj_id_at
child obj prop s = elim (get_prop obj prop s) [
  | none ↦ none
  | some (scalar v) ↦ none
  | some (object t) ↦ get_obj_id_at obj prop s
]

unfoldable get_path_from : ObjId → List Prop → DocState → Option Value
unfolding get_prop child
get_path_from obj [] s = none
get_path_from obj (prop ∷ []) s = get_prop obj prop s
get_path_from obj (prop ∷ next ∷ path) s = do
  inner ← child obj prop s
  get_path_from inner (next ∷ path) s

-- `get_path_impl`
unfoldable get_path : List Prop → DocState → Option Value
unfolding get_path_from
get_path path s = get_path_from root path s
