-- ===== src/Storage/Columns/OpRoundTrip.antt =====
-- The operations that are written to columns are read back, as far as the columns keep them.
use automerge_cpp.Prelude.{
  ℕ, suc, ◌+◌, ◌%◌, ◌^◌, ◌≡◌, refl, sym, ap, ◌∙◌, arith, length, get_elem?, map, All, Bool-cases,
  inl, inr,
}
use automerge_cpp.Prelude.{Bool, true, false, Option, none, some, List, [], ◌∷◌, ◌++◌}
use automerge_cpp.Prelude.Order.{eqb, eqb-eq, eqb_comm}
use automerge_cpp.Types.{ActorId, OpId, ObjId, root, op, Prop, ObjType, scalar, Op, Str, actor_ord}
use automerge_cpp.DocState.ActorTable.{member}
use automerge_cpp.DocState.ActorTable.Complete.{Knows, KnowsObj, KnowsAfter, KnowsOp}
use automerge_cpp.Encoding.Boolean.{BooleanDecoder}
use automerge_cpp.Encoding.Boolean as Boolean
use automerge_cpp.Encoding.Rle.{RleDecoder, uint64, strings}
use automerge_cpp.Encoding.Rle as Rle
use automerge_cpp.Encoding.Delta.{DeltaDecoder}
use automerge_cpp.Encoding.Delta as Delta
use automerge_cpp.Storage.Serializer.{actor_index}
use automerge_cpp.Storage.Columns.Values.{ValueReader, decode_value_from_columns}
use automerge_cpp.Storage.Columns.ValueRoundTrip.{as_scalar}
use automerge_cpp.Storage.Columns.ChangeOps.{find_actor_idx, op_to_action_code, is_insert}
use automerge_cpp.Storage.Columns.ReadOps.{
  OpDecoders, Step, ◌>>=◌, op_id_of, object_of, obj_of, decode_obj, key_of, insert_after_of,
  decode_key, decode_preds, decode_action, decode_op, decode_ops,
}
use automerge_cpp.Storage.Columns.Cells.{
  actor_cell, counter_cell, obj_id, key_element, obj_actor_cell, obj_counter_cell, key_actor_cell,
  key_counter_cell, key_string_cell, key_actor_of, key_counter_of, key_string_of, pred_actor_cells,
  pred_counter_cells, all_preds,
}
use automerge_cpp.Storage.Columns.Answers.{
  Column, DeltaColumn, FlagColumn, ValueColumn, next-Column, next-DeltaColumn, next-FlagColumn,
  next-ValueColumn,
}
use automerge_cpp.Storage.Columns.Stored.{
  stored_key, stored_action, stored, IsWhole, IsPlaced, IsStorable, action_of-stored, AreNumbered,
}

-- The entry of a table at the index of an actor that is in it.
index-member :
    (a : ActorId) (table : List ActorId) (i : ℕ)
    → member a table ≡ true
    → (k : ℕ) × (actor_index a table i ≡ i + k) × (get_elem? table k ≡ some a)
unfolding actor_index
index-member a [] i h = cc
index-member a (b ∷ table) i h = elim (Bool-cases (eqb b a)) [
  | inl same ↦ (0, rw same (omega arith), ap some (eqb-eq b a same))
  | inr other ↦
      let later : member a table ≡ true = ground (arith, h, eqb_comm a b, other) in
      let (k, place, there) = index-member a table (i + 1) later in
      (suc k, rw other (omega (arith, place)), there)
]

module _ (table : List ActorId) where
  op_id_of-find :
      (id : OpId)
      → Knows table id.actor
      → op_id_of table (find_actor_idx table id.actor) id.counter ≡ some id
  op_id_of-find id known =
      let (k, place, there) = index-member id.actor table 0 known in
      let index : find_actor_idx table id.actor ≡ k = place ∙ omega arith in
      rw (index, op_id_of, there) refl

  obj_of-cells :
      (id : ObjId)
      → KnowsObj table id
      → obj_of table (actor_cell table (obj_id id)) (counter_cell (obj_id id)) ≡ some id
  obj_of-cells root known = refl
  obj_of-cells (op id) known = ap (λ (t : Option OpId). object_of table t) (op_id_of-find id known)

  insert_after_of-cells :
      (inserts : Bool) (at : Prop) (pred : List OpId) (after : Option OpId)
      → IsPlaced inserts at after
      → KnowsAfter table after
      → insert_after_of table inserts
          (key_actor_of table at (key_element inserts pred after))
          (key_counter_of at (key_element inserts pred after))
        ≡ after
  insert_after_of-cells true (Prop.key s) pred after placed known = absurd placed
  insert_after_of-cells true (Prop.index i) pred none placed known = refl
  insert_after_of-cells true (Prop.index i) pred (some id) placed known = op_id_of-find id known
  insert_after_of-cells false (Prop.key s) pred none placed known = refl
  insert_after_of-cells false (Prop.index i) pred none placed known = refl
  insert_after_of-cells false (Prop.key s) pred (some id) placed known = absurd placed
  insert_after_of-cells false (Prop.index i) pred (some id) placed known = absurd placed

  -- A step that succeeds, and what follows it.
  behind :
      {A B : Type 0} (s : Step A) (f : A → Step B) {d d' : OpDecoders} {a : A}
      → s d ≡ some (a, d')
      → (s >>= f) d ≡ f a d'
  behind s f h = rw (◌>>=◌, h) refl

  decode_obj-cells :
      (id : ObjId) (d : OpDecoders) {a : RleDecoder ℕ} {b : DeltaDecoder}
      → KnowsObj table id
      → Rle.next uint64 d.obj_actor ≡ (some (actor_cell table (obj_id id)), a)
      → Delta.next d.obj_counter ≡ (some (counter_cell (obj_id id)), b)
      → decode_obj table d ≡ some (id, record d { obj_actor = a; obj_counter = b })
  unfolding decode_obj
  decode_obj-cells id d known h k = rw (◌>>=◌, h, k, obj_of-cells id known) refl

  key_of-cells : (at : Prop) → key_of table (key_string_of at) ≡ stored_key at
  key_of-cells (Prop.key s) = refl
  key_of-cells (Prop.index i) = refl

  decode_key-cells :
      (o : Op) (d : OpDecoders) {a : RleDecoder ℕ} {b : DeltaDecoder} {c : RleDecoder Str}
      {f : BooleanDecoder}
      → IsPlaced (is_insert o.action) o.key o.insert_after
      → KnowsAfter table o.insert_after
      → Rle.next uint64 d.key_actor ≡ (some (key_actor_cell table o), a)
      → Delta.next d.key_counter ≡ (some (key_counter_cell o), b)
      → Rle.next strings d.key_string ≡ (some (key_string_cell o), c)
      → Boolean.next d.insert ≡ (some (is_insert o.action), f)
      → decode_key table d
        ≡ some (
          (stored_key o.key, is_insert o.action, o.insert_after),
          record d { key_actor = a; key_counter = b; key_string = c; insert = f },
        )
  unfolding decode_key
  decode_key-cells o d placed known h k l m =
      rw
        (
          ◌>>=◌,
          h,
          k,
          l,
          m,
          insert_after_of-cells (is_insert o.action) o.key o.pred o.insert_after placed known,
          key_of-cells o.key,
        )
        refl

  decode_preds-cells :
      (ps qs : List OpId) (d : OpDecoders)
      → All (λ (p : OpId). Knows table p.actor) ps
      → Column uint64 d.pred_actor (pred_actor_cells table (ps ++ qs))
      → DeltaColumn d.pred_counter (pred_counter_cells (ps ++ qs))
      → (a : RleDecoder ℕ) × (b : DeltaDecoder) × (decode_preds table (length ps) d
          ≡ some (ps, record d { pred_actor = a; pred_counter = b }))
        × Column uint64 a (pred_actor_cells table qs)
        × DeltaColumn b (pred_counter_cells qs)
  unfolding decode_preds
  decode_preds-cells [] qs d known actors counters =
      (d.pred_actor, d.pred_counter, refl, actors, counters)
  decode_preds-cells (p ∷ ps) qs d known actors counters =
      let (a, h, actors') = next-Column uint64 d.pred_actor _ _ actors in
      let (b, k, counters') = next-DeltaColumn d.pred_counter _ _ counters in
      let (a', b', rest, left, right) =
        decode_preds-cells ps qs (record d { pred_actor = a; pred_counter = b }) known.1 actors'
          counters' in
      (a', b', rw (◌>>=◌, h, k, op_id_of-find p known.0, rest) refl, left, right)

  decode_action-cells :
      (unnamed : ℕ → ObjType) (o : Op) (d : OpDecoders) {a : RleDecoder ℕ} {r : ValueReader}
      → IsWhole o.action o.value
      → Rle.next uint64 d.action ≡ (some (some (op_to_action_code o)), a)
      → decode_value_from_columns d.values ≡ (some (scalar (as_scalar o.value)), r)
      → decode_action unnamed (is_insert o.action) d
        ≡ some ((stored_action o.action o.value, o.value), record d { action = a; values = r })
  unfolding decode_action op_to_action_code
  decode_action-cells unnamed o d whole h k =
      rw (◌>>=◌, h, k, action_of-stored unnamed o.action o.value whole) refl

  -- The decoders stand in front of the cells of some operations.
  pub record IsReady (d : OpDecoders) (os : List Op) : Type 0 where
    pub obj_actors : Column uint64 d.obj_actor (map (obj_actor_cell table) os)
    pub obj_counters : DeltaColumn d.obj_counter (map obj_counter_cell os)
    pub key_actors : Column uint64 d.key_actor (map (key_actor_cell table) os)
    pub key_counters : DeltaColumn d.key_counter (map key_counter_cell os)
    pub key_strings : Column strings d.key_string (map key_string_cell os)
    pub inserts : FlagColumn d.insert (map (λ (o : Op). is_insert o.action) os)
    pub actions : Column uint64 d.action (map (λ o. some (op_to_action_code o)) os)
    pub all_values : ValueColumn d.values (map (λ (o : Op). scalar (as_scalar o.value)) os)
    pub groups : Column uint64 d.pred_group (map (λ (o : Op). some (length o.pred)) os)
    pub actors : Column uint64 d.pred_actor (pred_actor_cells table (all_preds os))
    pub counters : DeltaColumn d.pred_counter (pred_counter_cells (all_preds os))

  module _ (unnamed : ℕ → ObjType) (change_actor : ActorId) where
    -- The operation with the id that it gets where it is read.
    abbrev pub numbered : ℕ → Op → Op
    numbered counter o = record (stored o) {
      id = record { counter = counter; actor = change_actor };
    }

    decode_op-stored :
        (o : Op) (os : List Op) (d : OpDecoders) (counter : ℕ)
        → KnowsOp table o
        → IsStorable o
        → IsReady d (o ∷ os)
        → (d' : OpDecoders) × (decode_op unnamed table change_actor counter d
            ≡ some (numbered counter o, d'))
          × IsReady d' os
    unfolding decode_op
    decode_op-stored o os d counter (own, (obj, (after, preds))) storable ready =
        let (oa, h1, oas) = next-Column uint64 d.obj_actor _ _ ready.obj_actors in
        let (oc, h2, ocs) = next-DeltaColumn d.obj_counter _ _ ready.obj_counters in
        let (ka, h3, kas) = next-Column uint64 d.key_actor _ _ ready.key_actors in
        let (kc, h4, kcs) = next-DeltaColumn d.key_counter _ _ ready.key_counters in
        let (ks, h5, kss) = next-Column strings d.key_string _ _ ready.key_strings in
        let (fs, h6, fss) = next-FlagColumn d.insert _ _ ready.inserts in
        let (ac, h7, acs) = next-Column uint64 d.action _ _ ready.actions in
        let (vr, h8, vs) = next-ValueColumn d.values _ _ ready.all_values in
        let (pg, h9, pgs) = next-Column uint64 d.pred_group _ _ ready.groups in
        let d1 = record d { obj_actor = oa; obj_counter = oc } in
        let d2 = record d1 { key_actor = ka; key_counter = kc; key_string = ks; insert = fs } in
        let d3 = record d2 { action = ac; values = vr } in
        let d4 = record d3 { pred_group = pg } in
        let (pa, pc, h10, pas, pcs) =
          decode_preds-cells o.pred (all_preds os) d4 preds ready.actors ready.counters in
        (
          record d4 { pred_actor = pa; pred_counter = pc },
          rw
              (
                ◌>>=◌,
                decode_obj-cells o.obj d obj h1 h2,
                decode_key-cells o d1 storable.1 after h3 h4 h5 h6,
                decode_action-cells unnamed o d2 storable.0 h7 h8,
                h9,
                h10,
              )
              refl,
          record {
            obj_actors = oas;
            obj_counters = ocs;
            key_actors = kas;
            key_counters = kcs;
            key_strings = kss;
            inserts = fss;
            actions = acs;
            all_values = vs;
            groups = pgs;
            actors = pas;
            counters = pcs;
          },
        )

    pub decode_ops-stored :
        (os : List Op) (d : OpDecoders) (counter : ℕ)
        → All (KnowsOp table) os
        → All IsStorable os
        → AreNumbered change_actor counter os
        → IsReady d os
        → (d' : OpDecoders) × (decode_ops unnamed table change_actor (length os) counter d
            ≡ some (map stored os, d'))
    unfolding decode_ops
    decode_ops-stored [] d counter known storable ids ready = (d, refl)
    decode_ops-stored (o ∷ os) d counter known storable ids ready =
        let (d', step, ready') =
          decode_op-stored o os d (counter % 2 ^ 64) known.0 storable.0 ready in
        let own : numbered (counter % 2 ^ 64) o ≡ stored o =
          ap (λ (id : OpId). record (stored o) { id = id }) (sym ids.0) in
        let (d'', rest) = decode_ops-stored os d' (counter + 1) known.1 storable.1 ids.1 ready' in
        (d'', rw (◌>>=◌, step, rest) (ap (λ (t : Op). some (t ∷ map stored os, d'')) own))
