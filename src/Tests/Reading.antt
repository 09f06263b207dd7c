-- ===== src/Tests/Reading.antt =====
-- Cursors and patches at concrete documents.
use automerge_cpp.Prelude.{
  ℕ, ◌<◌, ◌≡◌, refl, arith, true, false, none, some, List, [], ◌∷◌, Bool, ◌>>=◌,
}
use automerge_cpp.Prelude.Order.{compare_bytes}
use automerge_cpp.Types.{
  ObjId, ObjType, Op, OpType, Prop, op, scalar, string, compare_obj_id, compare_op_id,
}
use automerge_cpp.DocState.{DocState, ObjectState, ListElement, initial, get_object, set_object}
use automerge_cpp.DocState.ListOps.{list_length, count_visible}
use automerge_cpp.DocState.Rga.Fresh.{Distinct}
use automerge_cpp.Document.Reads.{cursor, resolve_cursor}
use automerge_cpp.Document.Reads.Cursors.{resolve_cursor-cursor}
use automerge_cpp.Document.Patches.{Patch, ops_to_patches}
use automerge_cpp.Document.Patches.Rounds.{IsComplete, ops_to_patches-IsComplete}
use automerge_cpp.Tests.Histories.{alice}

abbrev element : ℕ → Bool → ListElement
element n visible = record {
  insert_id = record { counter = n; actor = alice };
  insert_after = none;
  value = scalar (string (b'a' ∷ []));
  visible = visible;
}

-- A tombstone and two visible elements.
abbrev elements : ObjectState
elements = record {
  type = ObjType.text;
  map_entries = [];
  list_elements = element 2 false ∷ element 3 true ∷ element 4 true ∷ [];
  marks = [];
}

abbrev text_id : ObjId
text_id = op (record { counter = 1; actor = alice })

abbrev with_text : DocState
with_text = set_object text_id elements (initial alice)

text_there : get_object text_id with_text ≡ some elements
unfolding get_object set_object initial compare_obj_id compare_op_id compare_bytes
text_there = refl

text-Distinct : Distinct elements.list_elements
unfolding compare_op_id compare_bytes
text-Distinct = ((refl, (refl, tt)), ((refl, tt), (tt, tt)))

second_visible : 1 < list_length text_id with_text
unfolding list_length count_visible get_object set_object initial compare_obj_id compare_op_id
    compare_bytes
second_visible = omega arith

resolve_cursor-cursor_example :
    (do cur ← cursor text_id 1 with_text; resolve_cursor text_id cur with_text) ≡ some 1
resolve_cursor-cursor_example =
    resolve_cursor-cursor text_id 1 with_text text_there text-Distinct second_visible

abbrev at_zero : OpType → Op
at_zero action = record {
  id = record { counter = 5; actor = alice };
  obj = text_id;
  key = Prop.index 0;
  action = action;
  value = scalar (string (b'x' ∷ []));
  pred = [];
  insert_after = none;
}

-- Two deletes and an insertion, as one splice.
abbrev splice : List Op
splice = at_zero OpType.del ∷ at_zero OpType.del ∷ at_zero OpType.splice_text ∷ []

ops_to_patches-IsComplete_example :
    (patches : List Patch) × (ops_to_patches splice ≡ some patches) × IsComplete splice patches
ops_to_patches-IsComplete_example = ops_to_patches-IsComplete splice (tt, (tt, (tt, tt)))
