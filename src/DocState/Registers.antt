-- ===== src/DocState/Registers.antt =====
-- What `apply_op` does to the entries of one map key, for every kind of operation: each key of each
-- object is a register of its own that holds the entries that no later write has overridden.
pub mod Convergence
pub mod Counters
pub mod Increment
use automerge_cpp.Prelude.{◌∙◌, ◌≡◌, refl, arith, if◌then◌else◌, Option-cases, Bool-cases, inl, inr}
use automerge_cpp.Prelude.{Bool, true, false, ◌&&◌, Option, none, some, List, [], ◌∷◌, ◌++◌}
use automerge_cpp.Prelude.Order.{Ord, eqb, eqb-eq, eqb_refl, eqb_comm, bytes_ord}
use automerge_cpp.Types.{
  ObjId, OpId, Op, OpType, Prop, Str, Value, op_id_ord, obj_id_ord, object, scalar, op,
}
use automerge_cpp.OrdMap.{find, find-assign, find-erase}
use automerge_cpp.DocState.{
  MapEntry, ObjectState, DocState, get_object, set_object, modify_object, create_object,
  empty_object,
}
use automerge_cpp.DocState.MapOps.{or_empty, entries_at}
use automerge_cpp.DocState.Apply.{
  without_pred, increment_entries, apply_map_put, apply_map_delete, apply_increment, apply_list_set,
  apply_list_delete, apply_insert, apply_mark, apply_action, store_entries, ensure_nested,
  advance_counter, apply_op,
}

-- The entries of a key, none for a key or an object that is not there.
unfoldable pub conflicts : ObjId → Str → DocState → List MapEntry
unfolding get_object find
conflicts obj key s = or_empty (entries_at obj key s)

unfoldable pub entry : Op → MapEntry
entry o = record { op_id = o.id; value = o.value }

-- The step of a register, by the action of the operation on it.
unfoldable pub key_step : OpType → Op → List MapEntry → List MapEntry
unfolding entry
key_step OpType.put o entries = without_pred o.pred entries ++ (entry o ∷ [])
key_step OpType.make_object o entries = without_pred o.pred entries ++ (entry o ∷ [])
key_step OpType.del o entries = without_pred o.pred entries
key_step OpType.increment o entries = increment_entries o.value entries
key_step _ o entries = entries

abbrev pub is_key : Prop → Str → Bool
is_key (Prop.key k) j = eqb j k
is_key (Prop.index i) j = false

-- Whether the operation writes to the key `j` of the object.
abbrev pub targets : Op → ObjId → Str → Bool
targets o obj j = eqb obj o.obj && is_key o.key j

nothing-increment : (v : Value) → increment_entries v [] ≡ []
unfolding increment_entries
nothing-increment (object t) = refl
nothing-increment (scalar v) = ground arith

find-store :
    (k j : Str) (entries : List MapEntry) (state : ObjectState)
    → or_empty (find j (store_entries k entries state).map_entries)
      ≡ (if eqb j k then entries else or_empty (find j state.map_entries))
find-store k j [] state = ground (arith, find-erase k j state.map_entries)
find-store k j (e ∷ es) state = ground (arith, find-assign k j (e ∷ es) state.map_entries)

find-delete :
    (o : Op) (k j : Str) (state : ObjectState)
    → or_empty (find j (apply_map_delete o k state).map_entries) ≡ (
        if eqb j k
        then without_pred o.pred (or_empty (find j state.map_entries))
        else or_empty (find j state.map_entries))
unfolding apply_map_delete
find-delete o k j state = elim (Option-cases (find k state.map_entries)) [
  | inl e ↦ ground (arith, e, eqb-eq j k)
  | inr (es, e) ↦ ground (arith, e, eqb-eq j k, find-store k j (without_pred o.pred es) state)
]

find-put :
    (o : Op) (k j : Str) (state : ObjectState)
    → or_empty (find j (apply_map_put o k state).map_entries) ≡ (
        if eqb j k
        then without_pred o.pred (or_empty (find j state.map_entries)) ++ (entry o ∷ [])
        else or_empty (find j state.map_entries))
unfolding apply_map_put entry
find-put o k j state = ground (
  arith,
  eqb-eq j k,
  find-assign k j
      (without_pred o.pred (or_empty (find k state.map_entries))
        ++ (record { op_id = o.id; value = o.value } ∷ []))
      state.map_entries,
)

find-increment :
    (o : Op) (k j : Str) (state : ObjectState)
    → or_empty (find j (apply_increment o k state).map_entries) ≡ (
        if eqb j k
        then increment_entries o.value (or_empty (find j state.map_entries))
        else or_empty (find j state.map_entries))
unfolding apply_increment
find-increment o k j state = elim (Option-cases (find k state.map_entries)) [
  | inl e ↦ ground (arith, e, eqb-eq j k, nothing-increment o.value)
  | inr (es, e) ↦
      ground
        (arith, e, eqb-eq j k, find-assign k j (increment_entries o.value es) state.map_entries)
]

map_entries-mark :
    (o : Op) (k : Str) (pred : List OpId) (state : ObjectState)
    → (apply_mark o k pred state).map_entries ≡ state.map_entries
unfolding apply_mark
map_entries-mark o k [] state = refl
map_entries-mark o k (a ∷ []) state = refl
map_entries-mark o k (a ∷ b ∷ pred) state = refl

find-action :
    (act : OpType) (p : Prop) (o : Op) (j : Str) (state : ObjectState)
    → or_empty (find j (apply_action act p o state).map_entries) ≡ (
        if is_key p j
        then key_step act o (or_empty (find j state.map_entries))
        else or_empty (find j state.map_entries))
unfolding apply_action key_step
find-action OpType.put (Prop.key k) o j state = find-put o k j state
find-action OpType.put (Prop.index i) o j state = refl
find-action OpType.make_object (Prop.key k) o j state = find-put o k j state
find-action OpType.make_object (Prop.index i) o j state = refl
find-action OpType.del (Prop.key k) o j state = find-delete o k j state
find-action OpType.del (Prop.index i) o j state = refl
find-action OpType.increment (Prop.key k) o j state = find-increment o k j state
find-action OpType.increment (Prop.index i) o j state = refl
find-action OpType.mark (Prop.key k) o j state = ground (arith, map_entries-mark o k o.pred state)
find-action OpType.mark (Prop.index i) o j state = refl
find-action OpType.insert p o j state = ground arith
find-action OpType.splice_text p o j state = ground arith

-- A state in which `id` may have become an object reads as before at every key.
conflicts-ensure :
    (id : OpId) (v : Value) (obj : ObjId) (j : Str) (s : DocState)
    → conflicts obj j (ensure_nested id v s) ≡ conflicts obj j s
unfolding conflicts ensure_nested set_object
conflicts-ensure id (scalar v) obj j s = refl
conflicts-ensure id (object t) obj j s = ground (arith, eqb-eq obj (op id), eqb_refl obj)

-- The objects that are there stay there, with their contents, while a nested object is created.
get-ensure :
    (id : OpId) (v : Value) (obj : ObjId) (s : DocState) {st : ObjectState}
    → get_object obj s ≡ some st
    → get_object obj (ensure_nested id v s) ≡ some st
unfolding ensure_nested set_object get_object
get-ensure id (scalar v) obj s h = h
get-ensure id (object t) obj s h = ground (arith, eqb-eq obj (op id), eqb_refl obj)

conflicts-modify :
    (obj target : ObjId) (j : Str) (f : ObjectState → ObjectState) (s : DocState) {st : ObjectState}
    → get_object target s ≡ some st
    → conflicts obj j (modify_object target f s)
      ≡ (if eqb obj target then or_empty (find j (f st).map_entries) else conflicts obj j s)
unfolding conflicts modify_object
conflicts-modify obj target j f s h = ground arith

conflicts-get :
    (obj : ObjId) (j : Str) (s : DocState) {st : ObjectState}
    → get_object obj s ≡ some st
    → conflicts obj j s ≡ or_empty (find j st.map_entries)
unfolding conflicts
conflicts-get obj j s h = ground arith

conflicts-advance :
    (id : OpId) (obj : ObjId) (j : Str) (s : DocState)
    → conflicts obj j (advance_counter id s) ≡ conflicts obj j s
unfolding conflicts advance_counter
conflicts-advance id obj j s = refl

get-advance :
    (id : OpId) (obj : ObjId) (s : DocState) {st : ObjectState}
    → get_object obj s ≡ some st
    → get_object obj (advance_counter id s) ≡ some st
unfolding advance_counter get_object
get-advance id obj s h = h

module _ (o : Op) (s : DocState) {st : ObjectState} (present : get_object o.obj s ≡ some st) where
  pub target : get_object o.obj (ensure_nested o.id o.value (advance_counter o.id s)) ≡ some st
  target = get-ensure o.id o.value o.obj _ (get-advance o.id o.obj s present)

-- An operation on an object that is there acts on the entries of the keys that it targets by
-- `key_step`, and leaves the entries of every other key of every object alone.
pub conflicts-apply_op :
    (o : Op) (obj : ObjId) (j : Str) (s : DocState) {st : ObjectState}
    → get_object o.obj s ≡ some st
    → conflicts obj j (apply_op o s)
      ≡ (if targets o obj j then key_step o.action o (conflicts obj j s) else conflicts obj j s)
unfolding apply_op
conflicts-apply_op o obj j s {st} h =
    conflicts-modify obj o.obj j (apply_action o.action o.key o)
      (ensure_nested o.id o.value (advance_counter o.id s)) (target o s h)
    ∙ ground (
      arith,
      eqb-eq obj o.obj,
      find-action o.action o.key o j st,
      conflicts-get obj j s {st = st},
      conflicts-ensure o.id o.value obj j (advance_counter o.id s),
      conflicts-advance o.id obj j s,
    )

present-modify :
    (target obj : ObjId) (f : ObjectState → ObjectState) (s : DocState) {st : ObjectState}
    → get_object obj s ≡ some st
    → (st' : ObjectState) × (get_object obj (modify_object target f s) ≡ some st')
unfolding modify_object
present-modify target obj f s {st} h = elim (Option-cases (get_object target s)) [
  | inl e ↦ (st, ground (arith, e))
  | inr (t, e) ↦ (if eqb obj target then f t else st, ground (arith, e))
]

-- Objects do not go away.
pub present-apply_op :
    (o : Op) (obj : ObjId) (s : DocState) {st : ObjectState}
    → get_object obj s ≡ some st
    → (st' : ObjectState) × (get_object obj (apply_op o s) ≡ some st')
unfolding apply_op
present-apply_op o obj s {st} h =
    present-modify o.obj obj (apply_action o.action o.key o)
      (ensure_nested o.id o.value (advance_counter o.id s))
      (get-ensure o.id o.value obj (advance_counter o.id s) (get-advance o.id obj s h))

module _ (a b : Op) (s : DocState) {sa sb : ObjectState} (present_a : get_object a.obj s ≡ some sa)
    (present_b : get_object b.obj s ≡ some sb) where
  pub conflicts-apply_two :
      (obj : ObjId) (j : Str)
      → conflicts obj j (apply_op b (apply_op a s)) ≡ (
          let es =
            if targets a obj j
            then key_step a.action a (conflicts obj j s)
            else conflicts obj j s in
          if targets b obj j then key_step b.action b es else es)
  conflicts-apply_two obj j =
      let (st, p) = present-apply_op a b.obj s present_b in
      rw (conflicts-apply_op b obj j (apply_op a s) p, conflicts-apply_op a obj j s present_a) refl
