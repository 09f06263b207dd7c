-- ===== src/Storage/Columns/Standard.antt =====
-- src/storage/columns/column_spec.hpp: the columns of the operations of a change.
use automerge_cpp.Prelude.{ℕ, false}
use automerge_cpp.Storage.Columns.Spec.{ColumnSpec, ColumnType}

abbrev column : ℕ → ColumnType → ColumnSpec
column id t = record { column_id = id; type = t; deflate = false }

abbrev pub obj_actor : ColumnSpec
obj_actor = column 0 ColumnType.actor_id

abbrev pub obj_counter : ColumnSpec
obj_counter = column 0 ColumnType.integer_key

abbrev pub key_actor : ColumnSpec
key_actor = column 1 ColumnType.actor_id

abbrev pub key_counter : ColumnSpec
key_counter = column 1 ColumnType.integer_key

abbrev pub key_string : ColumnSpec
key_string = column 1 ColumnType.string_rle

abbrev pub insert : ColumnSpec
insert = column 3 ColumnType.boolean

abbrev pub action : ColumnSpec
action = column 4 ColumnType.integer_rle

abbrev pub value_meta : ColumnSpec
value_meta = column 5 ColumnType.value_meta

abbrev pub value_raw : ColumnSpec
value_raw = column 5 ColumnType.value_raw

abbrev pub pred_group : ColumnSpec
pred_group = column 7 ColumnType.group_card

abbrev pub pred_actor : ColumnSpec
pred_actor = column 7 ColumnType.actor_id

abbrev pub pred_counter : ColumnSpec
pred_counter = column 7 ColumnType.integer_key

abbrev pub expand : ColumnSpec
expand = column 9 ColumnType.boolean

abbrev pub mark_name : ColumnSpec
mark_name = column 10 ColumnType.string_rle
