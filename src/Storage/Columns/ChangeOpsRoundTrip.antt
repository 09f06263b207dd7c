-- ===== src/Storage/Columns/ChangeOpsRoundTrip.antt =====
-- The operations of a change through their columns.
use automerge_cpp.Prelude.{ℕ, ◌^◌, ◌<◌, ◌≡◌, refl, sym, ap, ◌∙◌, arith, length, map, All}
use automerge_cpp.Prelude.{some, List}
use automerge_cpp.Prelude.Order.{bytes_ord}
use automerge_cpp.Types.{ActorId, OpId, ObjType, Value, scalar, Op}
use automerge_cpp.DocState.ActorTable.Complete.{KnowsOp}
use automerge_cpp.Encoding.Boolean.Writer as Flags
use automerge_cpp.Encoding.Rle.{uint64, strings, new_decoder}
use automerge_cpp.Encoding.Delta.RoundTrip.{Int64}
use automerge_cpp.Encoding.Delta as Delta
use automerge_cpp.Encoding.Boolean as Boolean
use automerge_cpp.Storage.Columns.Values.{ValueColumns}
use automerge_cpp.Storage.Columns.ValueRoundTrip.{
  FitsColumn, as_scalar, write_values, new_columns, reader_of, decode_values,
  decode_values-write_values,
}
use automerge_cpp.Storage.Columns.Raw.{RawColumn}
use automerge_cpp.Storage.Columns.Spec.{ColumnSpec}
use automerge_cpp.Storage.Columns.ChangeOps.{
  OpEncoders, new_encoders, encode_change_ops, encode_ops, find_actor_idx, is_insert,
  op_to_action_code, columns_of, numbers, names, counters, flags,
}
use automerge_cpp.Storage.Columns.ReadOps.{
  find_col, new_decoders, decode_change_ops, without_decoders,
}
use automerge_cpp.Storage.Columns.Cells.{
  core, with_ops, encode_ops-cells, obj_id, obj_actor_cell, obj_counter_cell, key_actor_cell,
  key_counter_cell, key_string_cell, pred_actor_cells, pred_counter_cells, all_preds,
}
use automerge_cpp.Storage.Columns.Standard as Standard
use automerge_cpp.Storage.Columns.Found.{
  found-obj_actor, found-obj_counter, found-key_actor, found-key_counter, found-key_string,
  found-insert, found-action, found-value_meta, found-value_raw, found-pred_group, found-pred_actor,
  found-pred_counter,
}
use automerge_cpp.Storage.Columns.Answers.{Column, DeltaColumn, FlagColumn, ValueColumn}
use automerge_cpp.Storage.Columns.OpRoundTrip.{IsReady, decode_ops-stored}
use automerge_cpp.Storage.Columns.Stored.{stored, IsStorable, AreNumbered}
use automerge_cpp.Storage.Columns.Fits.{
  Number, Name, FitsId, OpFits, All-map, length-map, map-map, action_code-bound, FitsSome-element,
  Int64-counter, Int64-key_counter, Name-key, all_preds-FitsId, actor_good, Number-actor,
  Number-key_actor,
}
use automerge_cpp.Storage.Columns.Decoders.{
  Column-numbers, Column-strings, Column-counters, Column-flags, find_col-small,
}

-- Operations whose cells fit, fewer than 2 ^ 63 with fewer than 2 ^ 63 predecessors, in columns of
-- fewer than 2 ^ 64 bytes, with the actors that they name in a table of fewer than 2 ^ 64.
pub record IsWritable (table : List ActorId) (os : List Op) : Type 0 where
  pub large : length table < 2 ^ 64
  pub few : length os < 2 ^ 63
  pub few_preds : length (all_preds os) < 2 ^ 63
  pub fits : All OpFits os
  pub small : All (λ (c : RawColumn). length c.bytes < 2 ^ 64) (encode_change_ops os table)
  pub known : All (KnowsOp table) os
  pub storable : All IsStorable os

module _ (table : List ActorId) (os : List Op) (w : IsWritable table os) where
  abbrev columns : List RawColumn
  columns = encode_change_ops os table

  abbrev written : OpEncoders
  written = encode_ops table os new_encoders

  -- The bytes of a column are those of its cells.
  bytes-cells :
      (spec : ColumnSpec) (bytes : OpEncoders → List ℕ)
      → ((e : OpEncoders) → find_col spec (columns_of e) ≡ bytes e)
      → ((e : OpEncoders) → bytes (core e) ≡ bytes e)
      → find_col spec columns ≡ bytes (with_ops table os new_encoders)
  unfolding encode_change_ops
  bytes-cells spec bytes found kept =
      found written
      ∙ sym (kept written)
      ∙ ap bytes (encode_ops-cells table os new_encoders)
      ∙ kept (with_ops table os new_encoders)

  few_cells : {B : Type 0} (f : Op → B) → length (map f os) < 2 ^ 63
  few_cells f = omega (arith, length-map f os, w.few)

  column_small : (spec : ColumnSpec) → length (find_col spec columns) < 2 ^ 64
  column_small spec = find_col-small spec columns w.small

  ready_obj_actors :
      Column uint64
        (new_decoder (find_col Standard.obj_actor columns))
        (map (obj_actor_cell table) os)
  ready_obj_actors =
      Column-numbers _ _
        (bytes-cells Standard.obj_actor (λ e. numbers e.obj_actor) found-obj_actor (λ e. refl))
        (All-map (obj_actor_cell table) OpFits Number
          (λ o f. Number-actor table w.large (obj_id o.obj)) os w.fits)
        (few_cells (obj_actor_cell table)) (column_small Standard.obj_actor)

  ready_obj_counters :
      DeltaColumn
        (Delta.new_decoder (find_col Standard.obj_counter columns))
        (map obj_counter_cell os)
  ready_obj_counters =
      Column-counters _ _
        (bytes-cells Standard.obj_counter (λ e. counters e.obj_counter) found-obj_counter
          (λ e. refl))
        (All-map obj_counter_cell OpFits Int64 (λ o f. Int64-counter (obj_id o.obj) f.obj) os
          w.fits)
        (few_cells obj_counter_cell) (column_small Standard.obj_counter)

  ready_key_actors :
      Column uint64
        (new_decoder (find_col Standard.key_actor columns))
        (map (key_actor_cell table) os)
  ready_key_actors =
      Column-numbers _ _
        (bytes-cells Standard.key_actor (λ e. numbers e.key_actor) found-key_actor (λ e. refl))
        (All-map (key_actor_cell table) OpFits Number
          (λ o f. Number-key_actor table w.large o.key _) os w.fits)
        (few_cells (key_actor_cell table)) (column_small Standard.key_actor)

  ready_key_counters :
      DeltaColumn
        (Delta.new_decoder (find_col Standard.key_counter columns))
        (map key_counter_cell os)
  ready_key_counters =
      Column-counters _ _
        (bytes-cells Standard.key_counter (λ e. counters e.key_counter) found-key_counter
          (λ e. refl))
        (All-map key_counter_cell OpFits Int64
          (λ o f.
            Int64-key_counter o.key _
              (FitsSome-element (is_insert o.action) o.pred o.insert_after f.preds f.after))
          os w.fits)
        (few_cells key_counter_cell) (column_small Standard.key_counter)

  ready_key_strings :
      Column strings (new_decoder (find_col Standard.key_string columns)) (map key_string_cell os)
  ready_key_strings =
      Column-strings _ _
        (bytes-cells Standard.key_string (λ e. names e.key_string) found-key_string (λ e. refl))
        (All-map key_string_cell OpFits Name (λ o f. Name-key o.key f.name) os w.fits)
        (few_cells key_string_cell) (column_small Standard.key_string)

  ready_actions :
      Column uint64
        (new_decoder (find_col Standard.action columns))
        (map (λ o. some (op_to_action_code o)) os)
  ready_actions =
      Column-numbers _ _
        (bytes-cells Standard.action (λ e. numbers e.action) found-action (λ e. refl))
        (All-map (λ o. some (op_to_action_code o)) OpFits Number
          (λ o f. unfold op_to_action_code in action_code-bound o.action o.value) os w.fits)
        (few_cells (λ o. some (op_to_action_code o))) (column_small Standard.action)

  ready_groups :
      Column uint64
        (new_decoder (find_col Standard.pred_group columns))
        (map (λ (o : Op). some (length o.pred)) os)
  ready_groups =
      Column-numbers _ _
        (bytes-cells Standard.pred_group (λ e. numbers e.pred_group) found-pred_group (λ e. refl))
        (All-map (λ (o : Op). some (length o.pred)) OpFits Number (λ o f. f.count) os w.fits)
        (few_cells (λ (o : Op). some (length o.pred))) (column_small Standard.pred_group)

  ready_actors :
      Column uint64
        (new_decoder (find_col Standard.pred_actor columns))
        (pred_actor_cells table (all_preds os))
  ready_actors =
      Column-numbers _ _
        (bytes-cells Standard.pred_actor (λ e. numbers e.pred_actor) found-pred_actor (λ e. refl))
        (All-map (λ (p : OpId). some (find_actor_idx table p.actor)) FitsId Number
          (λ p f. actor_good table w.large p.actor) (all_preds os) (all_preds-FitsId os w.fits))
        (omega (
          arith,
          w.few_preds,
          length-map (λ (p : OpId). some (find_actor_idx table p.actor)) (all_preds os),
        ))
        (column_small Standard.pred_actor)

  ready_counters :
      DeltaColumn
        (Delta.new_decoder (find_col Standard.pred_counter columns))
        (pred_counter_cells (all_preds os))
  ready_counters =
      Column-counters _ _
        (bytes-cells Standard.pred_counter (λ e. counters e.pred_counter) found-pred_counter
          (λ e. refl))
        (All-map (λ (p : OpId). some p.counter) FitsId Int64 (λ p f. f) (all_preds os)
          (all_preds-FitsId os w.fits))
        (omega (arith, w.few_preds, length-map (λ (p : OpId). some p.counter) (all_preds os)))
        (column_small Standard.pred_counter)

  ready_inserts :
      FlagColumn
        (Boolean.new_decoder (find_col Standard.insert columns))
        (map (λ (o : Op). is_insert o.action) os)
  unfolding Flags.encode
  ready_inserts =
      Column-flags _ _ (bytes-cells Standard.insert (λ e. flags e.insert) found-insert (λ e. refl))
        (few_cells (λ (o : Op). is_insert o.action))

  abbrev op_values : List Value
  op_values = map (λ (o : Op). o.value) os

  value_bytes :
      record {
        meta_out = find_col Standard.value_meta columns;
        raw_out = find_col Standard.value_raw columns;
      }
      ≡ write_values op_values new_columns
  value_bytes =
      let metas =
        bytes-cells Standard.value_meta (λ e. e.values.meta_out) found-value_meta (λ e. refl) in
      let raws =
        bytes-cells Standard.value_raw (λ e. e.values.raw_out) found-value_raw (λ e. refl) in
      rw (metas, raws) refl

  ready_values :
      ValueColumn
        (reader_of (record {
          meta_out = find_col Standard.value_meta columns;
          raw_out = find_col Standard.value_raw columns;
        }))
        (map (λ (o : Op). scalar (as_scalar o.value)) os)
  ready_values =
      let found : ValueColumns = record {
        meta_out = find_col Standard.value_meta columns;
        raw_out = find_col Standard.value_raw columns;
      } in
      let metas = ap (λ (c : ValueColumns). c.meta_out) value_bytes in
      let raws = ap (λ (c : ValueColumns). c.raw_out) value_bytes in
      let as_read = λ (o : Op). scalar (as_scalar o.value) in
      let count : length (map as_read os) ≡ length op_values =
        length-map as_read os ∙ sym (length-map (λ (o : Op). o.value) os) in
      ap (λ (n : ℕ). decode_values n (reader_of found)) count
      ∙ ap (λ (c : ValueColumns). decode_values (length op_values) (reader_of c)) value_bytes
      ∙ decode_values-write_values op_values
          (All-map (λ (o : Op). o.value) OpFits FitsColumn (λ o f. f.payload) os w.fits)
          (rw (sym metas) (column_small Standard.value_meta))
          (rw (sym raws) (column_small Standard.value_raw))
      ∙ map-map (λ v. scalar (as_scalar v)) (λ (o : Op). o.value) os

  ready : IsReady table (new_decoders columns) os
  unfolding new_decoders
  ready = record {
    obj_actors = ready_obj_actors;
    obj_counters = ready_obj_counters;
    key_actors = ready_key_actors;
    key_counters = ready_key_counters;
    key_strings = ready_key_strings;
    inserts = ready_inserts;
    actions = ready_actions;
    all_values = ready_values;
    groups = ready_groups;
    actors = ready_actors;
    counters = ready_counters;
  }

-- The operations that are decoded from the columns of operations are these, up to the index of a
-- list operation, which is read as 0, and the insertion of a string, which is read as a splice.
-- It holds for operations with the actor of the change and the counters from its first one on as
-- ids, with values and places that fit their actions, with counters, lengths and values that fit
-- into their cells, for fewer than 2 ^ 63 of them with fewer than 2 ^ 63 predecessors, in columns
-- of fewer than 2 ^ 64 bytes, with all actors that they name in a table of fewer than 2 ^ 64.
pub decode-encode_change_ops :
    (unnamed : ℕ → ObjType) (table : List ActorId) (change_actor : ActorId) (start_op : ℕ)
    (os : List Op)
    → IsWritable table os
    → AreNumbered change_actor start_op os
    → decode_change_ops unnamed table change_actor (encode_change_ops os table) start_op (length os)
      ≡ some (map stored os)
unfolding decode_change_ops
decode-encode_change_ops unnamed table change_actor start_op os w ids =
    let (d, all) =
      decode_ops-stored table unnamed change_actor os (new_decoders (encode_change_ops os table))
        start_op w.known w.storable ids (ready table os w) in
    ap (without_decoders unnamed table change_actor) all
