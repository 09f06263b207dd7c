-- ===== src/Storage/Columns/Cells.antt =====
-- What each column of the operations has for each of them.
use automerge_cpp.Prelude.{ℕ, ◌≡◌, refl, ap, ◌∙◌, length, map, if◌then◌else◌, Bool-cases, inl, inr}
use automerge_cpp.Prelude.{Bool, false, Option, none, some, List, [], ◌∷◌, ◌++◌}
use automerge_cpp.Types.{ActorId, OpId, ObjId, root, op, Prop, OpType, Op, Str}
use automerge_cpp.Encoding.Boolean.{BooleanEncoder}
use automerge_cpp.Encoding.Boolean as Boolean
use automerge_cpp.Encoding.Boolean.Writer as Flags
use automerge_cpp.Encoding.Rle.{RleEncoder, new_encoder, uint64, strings}
use automerge_cpp.Encoding.Rle.Writing as Rle
use automerge_cpp.Encoding.Delta.{DeltaEncoder}
use automerge_cpp.Encoding.Delta.RoundTrip as Delta
use automerge_cpp.Storage.Columns.ValueRoundTrip.{write_values}
use automerge_cpp.Storage.Columns.ChangeOps.{
  OpEncoders, find_actor_idx, op_to_action_code, is_insert, is_mark, encode_obj, encode_key,
  encode_preds, encode_mark, encode_action, encode_op, encode_ops,
}

-- The numbers of an id in its two columns; none is a null and 0.
abbrev pub counter_cell : Option OpId → Option ℕ
counter_cell none = some 0
counter_cell (some id) = some id.counter

abbrev pub obj_id : ObjId → Option OpId
obj_id root = none
obj_id (op id) = some id

abbrev first : List OpId → Option OpId
first [] = none
first (p ∷ pred) = some p

-- The element that the key columns name.
abbrev pub key_element : Bool → List OpId → Option OpId → Option OpId
key_element inserts pred (some after) = some after
key_element inserts pred none = if inserts then none else first pred

abbrev pub obj_counter_cell : Op → Option ℕ
obj_counter_cell o = counter_cell (obj_id o.obj)

abbrev pub key_counter_of : Prop → Option OpId → Option ℕ
key_counter_of (Prop.key s) id = none
key_counter_of (Prop.index i) id = counter_cell id

abbrev pub key_string_of : Prop → Option Str
key_string_of (Prop.key s) = some s
key_string_of (Prop.index i) = none

abbrev pub key_counter_cell : Op → Option ℕ
key_counter_cell o = key_counter_of o.key (key_element (is_insert o.action) o.pred o.insert_after)

abbrev pub key_string_cell : Op → Option Str
key_string_cell o = key_string_of o.key

abbrev pub pred_counter_cells : List OpId → List (Option ℕ)
pred_counter_cells ps = map (λ p. some p.counter) ps

abbrev pub all_preds : List Op → List OpId
all_preds [] = []
all_preds (o ∷ os) = o.pred ++ all_preds os

-- Without the encoders of the marks.
abbrev pub core : OpEncoders → OpEncoders
core e = record e {
  expand = Boolean.new_encoder;
  mark_name = new_encoder;
  has_expand = false;
  has_mark_name = false;
}

module _ (actor_table : List ActorId) where
  abbrev pub actor_cell : Option OpId → Option ℕ
  actor_cell none = none
  actor_cell (some id) = some (find_actor_idx actor_table id.actor)

  abbrev pub obj_actor_cell : Op → Option ℕ
  obj_actor_cell o = actor_cell (obj_id o.obj)

  abbrev pub key_actor_of : Prop → Option OpId → Option ℕ
  key_actor_of (Prop.key s) id = none
  key_actor_of (Prop.index i) id = actor_cell id

  abbrev pub key_actor_cell : Op → Option ℕ
  key_actor_cell o = key_actor_of o.key (key_element (is_insert o.action) o.pred o.insert_after)

  abbrev pub pred_actor_cells : List OpId → List (Option ℕ)
  pred_actor_cells ps = map (λ p. some (find_actor_idx actor_table p.actor)) ps

  abbrev with_obj : ObjId → OpEncoders → OpEncoders
  with_obj id e = record e {
    obj_actor = Rle.add uint64 (actor_cell (obj_id id)) e.obj_actor;
    obj_counter = Delta.add (counter_cell (obj_id id)) e.obj_counter;
  }

  abbrev with_key : Prop → Option OpId → OpEncoders → OpEncoders
  with_key at id e = record e {
    key_actor = Rle.add uint64 (key_actor_of at id) e.key_actor;
    key_counter = Delta.add (key_counter_of at id) e.key_counter;
    key_string = Rle.add strings (key_string_of at) e.key_string;
  }

  abbrev with_preds : List OpId → OpEncoders → OpEncoders
  with_preds ps e = record e {
    pred_actor = Rle.append_all uint64 (pred_actor_cells ps) e.pred_actor;
    pred_counter = Delta.append_all (pred_counter_cells ps) e.pred_counter;
  }

  encode_obj-cells : (id : ObjId) (e : OpEncoders) → encode_obj actor_table id e ≡ with_obj id e
  unfolding encode_obj
  encode_obj-cells root e = refl
  encode_obj-cells (op id) e = refl

  encode_key-cells :
      (at : Prop) (action : OpType) (pred : List OpId) (after : Option OpId) (e : OpEncoders)
      → encode_key actor_table at action pred after e
        ≡ with_key at (key_element (is_insert action) pred after) e
  unfolding encode_key
  encode_key-cells (Prop.key s) action pred after e = refl
  encode_key-cells (Prop.index i) action pred (some after) e = refl
  encode_key-cells (Prop.index i) action [] none e = elim (Bool-cases (is_insert action)) [
    | inl inserts ↦ rw inserts refl
    | inr other ↦ rw other refl
  ]
  encode_key-cells (Prop.index i) action (p ∷ pred) none e = elim (Bool-cases (is_insert action)) [
    | inl inserts ↦ rw inserts refl
    | inr other ↦ rw other refl
  ]

  encode_preds-cells :
      (ps : List OpId) (e : OpEncoders) → encode_preds actor_table ps e ≡ with_preds ps e
  unfolding encode_preds Rle.append_all Delta.append_all
  encode_preds-cells [] e = refl
  encode_preds-cells (p ∷ ps) e = encode_preds-cells ps _

  encode_mark-core :
      (action : OpType) (at : Prop) (e : OpEncoders)
      → core (encode_mark actor_table action at e) ≡ core e
  unfolding encode_mark
  encode_mark-core action (Prop.key s) e = elim (Bool-cases (is_mark action)) [
    | inl mark ↦ rw mark refl
    | inr other ↦ rw other refl
  ]
  encode_mark-core action (Prop.index i) e = elim (Bool-cases (is_mark action)) [
    | inl mark ↦ rw mark refl
    | inr other ↦ rw other refl
  ]

  encode_op-cells :
      (o : Op) (e : OpEncoders)
      → core (encode_op actor_table o e)
        ≡ core (
            with_preds o.pred (
              encode_action actor_table o (
                with_key o.key
                  (key_element (is_insert o.action) o.pred o.insert_after)
                  (with_obj o.obj e))))
  unfolding encode_op
  encode_op-cells o e =
      encode_mark-core o.action o.key _
      ∙ ap core (encode_preds-cells o.pred _)
      ∙ ap (λ (x : OpEncoders). core (with_preds o.pred (encode_action actor_table o x)))
          (encode_key-cells o.key o.action o.pred o.insert_after _
            ∙ ap (with_key o.key (key_element (is_insert o.action) o.pred o.insert_after))
                (encode_obj-cells o.obj e))

  -- The encoders with the cells of some operations.
  abbrev pub with_ops : List Op → OpEncoders → OpEncoders
  with_ops os e = record e {
    obj_actor = Rle.append_all uint64 (map obj_actor_cell os) e.obj_actor;
    obj_counter = Delta.append_all (map obj_counter_cell os) e.obj_counter;
    key_actor = Rle.append_all uint64 (map key_actor_cell os) e.key_actor;
    key_counter = Delta.append_all (map key_counter_cell os) e.key_counter;
    key_string = Rle.append_all strings (map key_string_cell os) e.key_string;
    insert = Flags.append_all (map (λ o. is_insert o.action) os) e.insert;
    action = Rle.append_all uint64 (map (λ o. some (op_to_action_code o)) os) e.action;
    values = write_values (map (λ (o : Op). o.value) os) e.values;
    pred_group = Rle.append_all uint64 (map (λ o. some (length o.pred)) os) e.pred_group;
    pred_actor = Rle.append_all uint64 (pred_actor_cells (all_preds os)) e.pred_actor;
    pred_counter = Delta.append_all (pred_counter_cells (all_preds os)) e.pred_counter;
  }

  actors-append :
      (ps qs : List OpId) (e : RleEncoder ℕ)
      → Rle.append_all uint64 (pred_actor_cells qs) (Rle.append_all uint64 (pred_actor_cells ps) e)
        ≡ Rle.append_all uint64 (pred_actor_cells (ps ++ qs)) e
  unfolding Rle.append_all
  actors-append [] qs e = refl
  actors-append (p ∷ ps) qs e = actors-append ps qs _

  counters-append :
      (ps qs : List OpId) (e : DeltaEncoder)
      → Delta.append_all (pred_counter_cells qs) (Delta.append_all (pred_counter_cells ps) e)
        ≡ Delta.append_all (pred_counter_cells (ps ++ qs)) e
  unfolding Delta.append_all
  counters-append [] qs e = refl
  counters-append (p ∷ ps) qs e = counters-append ps qs _

  -- The encoders of the columns have the cells of the operations, in their order.
  pub encode_ops-cells :
      (os : List Op) (e : OpEncoders) → core (encode_ops actor_table os e) ≡ core (with_ops os e)
  unfolding encode_ops encode_action Rle.append_all Delta.append_all Flags.append_all write_values
  encode_ops-cells [] e = refl
  encode_ops-cells (o ∷ os) e =
      encode_ops-cells os (encode_op actor_table o e)
      ∙ ap (λ (x : OpEncoders). core (with_ops os x)) (encode_op-cells o e)
      ∙ ap
          (λ (x : RleEncoder ℕ). record (core (with_ops (o ∷ os) e)) {
            pred_actor = x;
            pred_counter =
                Delta.append_all (pred_counter_cells (all_preds os))
                  (Delta.append_all (pred_counter_cells o.pred) e.pred_counter);
          })
          (actors-append o.pred (all_preds os) e.pred_actor)
      ∙ ap (λ (x : DeltaEncoder). record (core (with_ops (o ∷ os) e)) { pred_counter = x })
          (counters-append o.pred (all_preds os) e.pred_counter)
