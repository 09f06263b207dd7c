-- ===== src/DocState/ListOps.antt =====
-- List, text and mark operations of src/doc_state.hpp. `none` is a failed `assert`.
use automerge_cpp.Prelude.{ℕ, zero, suc, ◌+◌, if◌then◌else◌}
use automerge_cpp.Prelude.{Bool, true, false, Option, none, some, List, [], ◌∷◌, ◌++◌}
use automerge_cpp.Prelude.{get_elem?, insert_at}
use automerge_cpp.Prelude.Order.{eqb}
use automerge_cpp.Types.{
  OpId, ObjId, ObjType, Value, Prop, Str, op_id_ord, scalar, object, op, string,
}
use automerge_cpp.DocState.{ListElement, MarkEntry, ObjectState, DocState, set_object, get_object}
use automerge_cpp.DocState.MapOps.{expect_object, update_object, get_obj_id_for_key}

-- `visible_index_to_real`: where the visible element number `index` stands, or the end. The loop
-- counts the visible elements that it has passed; here `index` counts down.
unfoldable pub visible_index_to_real : List ListElement → ℕ → ℕ
visible_index_to_real [] index = 0
visible_index_to_real (e ∷ es) zero =
    let rest = visible_index_to_real es zero in if e.visible then 0 else suc rest
visible_index_to_real (e ∷ es) (suc index) =
    suc (visible_index_to_real es (if e.visible then index else suc index))

unfoldable pub is_list_type : ObjType → Bool
is_list_type ObjType.list = true
is_list_type ObjType.text = true
is_list_type _ = false

abbrev pub element_at : ObjId → ℕ → DocState → Option ListElement
element_at obj index s = elim (get_object obj s) [
  | none ↦ none
  | some state ↦ get_elem? state.list_elements (visible_index_to_real state.list_elements index)
]

-- `list_pred`
unfoldable pub list_pred : ObjId → ℕ → DocState → List OpId
unfolding get_object visible_index_to_real
list_pred obj index s = elim (element_at obj index s) [ none ↦ [] | some e ↦ e.insert_id ∷ [] ]

-- `insert_after_for`
unfoldable pub insert_after_for : ObjId → ℕ → DocState → Option OpId
unfolding get_object visible_index_to_real
insert_after_for obj zero s = none
insert_after_for obj (suc index) s = elim (element_at obj index s) [
  | none ↦ none
  | some e ↦ some e.insert_id
]

unfoldable pub insert_element : ℕ → ListElement → ObjectState → ObjectState
unfolding visible_index_to_real
insert_element index elem state = record state {
  list_elements =
      insert_at (visible_index_to_real state.list_elements index) elem state.list_elements;
}

-- `list_insert`
unfoldable pub list_insert : ObjId → ℕ → OpId → Value → Option OpId → DocState → Option DocState
unfolding expect_object is_list_type set_object insert_element
list_insert obj index id value insert_after s =
    update_object is_list_type obj
      (insert_element index
        (record { insert_id = id; insert_after = insert_after; value = value; visible = true }))
      s

-- A write to the element at a real index; `none` if there is no such element.
unfoldable pub modify_at :
    ℕ → (ListElement → ListElement) → List ListElement → Option (List ListElement)
modify_at i f [] = none
modify_at zero f (e ∷ es) = some (f e ∷ es)
modify_at (suc i) f (e ∷ es) = elim (modify_at i f es) [ none ↦ none | some es' ↦ some (e ∷ es') ]

abbrev pub update_element : ObjId → ℕ → (ListElement → ListElement) → DocState → Option DocState
update_element obj index f s = elim (expect_object is_list_type obj s) [
  | none ↦ none
  | some state ↦
      elim (modify_at (visible_index_to_real state.list_elements index) f state.list_elements) [
        | none ↦ none
        | some elements ↦ some (set_object obj (record state { list_elements = elements }) s)
      ]
]

-- `list_set`
unfoldable pub list_set : ObjId → ℕ → OpId → Value → DocState → Option DocState
unfolding expect_object is_list_type set_object visible_index_to_real modify_at
list_set obj index id value s = update_element obj index (λ e. record e { value = value }) s

-- `list_delete`: the element stays, as a tombstone.
unfoldable pub list_delete : ObjId → ℕ → DocState → Option DocState
unfolding expect_object is_list_type set_object visible_index_to_real modify_at
list_delete obj index s = update_element obj index (λ e. record e { visible = false }) s

-- `list_get`
unfoldable pub list_get : ObjId → ℕ → DocState → Option Value
unfolding get_object visible_index_to_real
list_get obj index s = elim (element_at obj index s) [
  | none ↦ none
  | some e ↦ if e.visible then some e.value else none
]

unfoldable pub count_visible : List ListElement → ℕ
count_visible [] = 0
count_visible (e ∷ es) = (if e.visible then 1 else 0) + count_visible es

-- `list_length`
unfoldable pub list_length : ObjId → DocState → ℕ
unfolding get_object count_visible
list_length obj s = elim (get_object obj s) [
  | none ↦ 0
  | some state ↦ count_visible state.list_elements
]

unfoldable pub visible_values : List ListElement → List Value
visible_values [] = []
visible_values (e ∷ es) = let rest = visible_values es in if e.visible then e.value ∷ rest else rest

-- `list_values`
unfoldable pub list_values : ObjId → DocState → List Value
unfolding get_object visible_values
list_values obj s = elim (get_object obj s) [
  | none ↦ []
  | some state ↦ visible_values state.list_elements
]

-- `get_obj_id_for_index`
unfoldable pub get_obj_id_for_index : ObjId → ℕ → DocState → Option ObjId
unfolding get_object visible_index_to_real
get_obj_id_for_index obj index s = elim (element_at obj index s) [
  | none ↦ none
  | some e ↦
      if e.visible
      then elim e.value [ object t ↦ some (op e.insert_id) | scalar v ↦ none ]
      else none
]

-- `get_obj_id_at`
unfoldable pub get_obj_id_at : ObjId → Prop → DocState → Option ObjId
unfolding get_obj_id_for_key get_obj_id_for_index
get_obj_id_at obj (Prop.key k) s = get_obj_id_for_key obj k s
get_obj_id_at obj (Prop.index i) s = get_obj_id_for_index obj i s

abbrev pub text_of : Value → Str
text_of (scalar (string s)) = s
text_of _ = []

unfoldable pub visible_text : List ListElement → Str
visible_text [] = []
visible_text (e ∷ es) = (if e.visible then text_of e.value else []) ++ visible_text es

-- `text_content`
unfoldable pub text_content : ObjId → DocState → Str
unfolding get_object visible_text
text_content obj s = elim (get_object obj s) [
  | none ↦ []
  | some state ↦ visible_text state.list_elements
]

-- `mark_range`
unfoldable pub mark_range : ObjId → MarkEntry → DocState → Option DocState
unfolding expect_object is_list_type set_object
mark_range obj entry s =
    update_object is_list_type obj (λ state. record state { marks = state.marks ++ (entry ∷ []) }) s

-- `list_element_id_at`
unfoldable pub list_element_id_at : ObjId → ℕ → DocState → Option OpId
unfolding get_object visible_index_to_real
list_element_id_at obj index s = elim (element_at obj index s) [
  | none ↦ none
  | some e ↦ if e.visible then some e.insert_id else none
]

-- The loop of `find_element_visible_index`, `visible_count` being what it has counted.
unfoldable pub visible_position : OpId → ℕ → List ListElement → Option ℕ
visible_position id visible_count [] = none
visible_position id visible_count (e ∷ es) =
    let rest = visible_position id (if e.visible then visible_count + 1 else visible_count) es in
    if eqb e.insert_id id then (if e.visible then some visible_count else none) else rest

-- `find_element_visible_index`
unfoldable pub find_element_visible_index : ObjId → OpId → DocState → Option ℕ
unfolding get_object visible_position
find_element_visible_index obj id s = elim (get_object obj s) [
  | none ↦ none
  | some state ↦ visible_position id 0 state.list_elements
]
