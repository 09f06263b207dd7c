-- ===== src/Storage/Columns/Stored.antt =====
-- What the columns keep of an operation, and which operations they keep.
use automerge_cpp.Prelude.{ℕ, ◌+◌, ◌%◌, ◌^◌, ◌≡◌, refl}
use automerge_cpp.Prelude.{Bool, true, false, Option, none, some, List, [], ◌∷◌}
use automerge_cpp.Types.{
  ActorId, OpId, Prop, ObjType, ScalarValue, Value, object, scalar, OpType, Op, actor_ord,
}
use automerge_cpp.Storage.Columns.ValueRoundTrip.{as_scalar}
use automerge_cpp.Storage.Columns.ChangeOps.{action_code, is_insert}
use automerge_cpp.Storage.Columns.ReadOps.{action_of}

-- What the columns keep of an operation.
abbrev pub stored_key : Prop → Prop
stored_key (Prop.key s) = Prop.key s
stored_key (Prop.index i) = Prop.index 0

abbrev pub stored_action : OpType → Value → OpType
stored_action OpType.insert (scalar (ScalarValue.string s)) = OpType.splice_text
stored_action action v = action

-- An operation as it is read: the index 0 for an index, and an insertion of a string as a splice.
abbrev pub stored : Op → Op
stored o = record o { key = stored_key o.key; action = stored_action o.action o.value }

-- The values and keys that the actions have.
abbrev pub IsWhole : OpType → Value → Type 0
IsWhole OpType.make_object (object t) = Unit
IsWhole OpType.make_object (scalar sv) = ⊥
IsWhole OpType.insert v = Unit
IsWhole OpType.splice_text (scalar (ScalarValue.string s)) = Unit
IsWhole OpType.splice_text v = ⊥
IsWhole action (object t) = ⊥
IsWhole action (scalar sv) = Unit

-- An insertion is one of a list, and nothing else has an element that it stands behind.
abbrev pub IsPlaced : Bool → Prop → Option OpId → Type 0
IsPlaced true (Prop.key s) after = ⊥
IsPlaced true (Prop.index i) after = Unit
IsPlaced false at (some id) = ⊥
IsPlaced false at none = Unit

abbrev pub IsStorable : Op → Type 0
IsStorable o = IsWhole o.action o.value × IsPlaced (is_insert o.action) o.key o.insert_after

module _ (unnamed : ℕ → ObjType) where
  pub action_of-stored :
      (action : OpType) (v : Value)
      → IsWhole action v
      → action_of unnamed (is_insert action) (action_code action v) (scalar (as_scalar v))
        ≡ some (stored_action action v, v)
  unfolding action_of
  action_of-stored OpType.put (scalar sv) h = refl
  action_of-stored OpType.put (object t) h = absurd h
  action_of-stored OpType.del (scalar sv) h = refl
  action_of-stored OpType.del (object t) h = absurd h
  action_of-stored OpType.increment (scalar sv) h = refl
  action_of-stored OpType.increment (object t) h = absurd h
  action_of-stored OpType.mark (scalar sv) h = refl
  action_of-stored OpType.mark (object t) h = absurd h
  action_of-stored OpType.splice_text (scalar (ScalarValue.string s)) h = refl
  action_of-stored OpType.make_object (object ObjType.map) h = refl
  action_of-stored OpType.make_object (object ObjType.list) h = refl
  action_of-stored OpType.make_object (object ObjType.text) h = refl
  action_of-stored OpType.make_object (object ObjType.table) h = refl
  action_of-stored OpType.insert (object ObjType.map) h = refl
  action_of-stored OpType.insert (object ObjType.list) h = refl
  action_of-stored OpType.insert (object ObjType.text) h = refl
  action_of-stored OpType.insert (object ObjType.table) h = refl
  action_of-stored OpType.insert (scalar ScalarValue.null) h = refl
  action_of-stored OpType.insert (scalar (ScalarValue.bool b)) h = refl
  action_of-stored OpType.insert (scalar (ScalarValue.int v)) h = refl
  action_of-stored OpType.insert (scalar (ScalarValue.uint v)) h = refl
  action_of-stored OpType.insert (scalar (ScalarValue.double v)) h = refl
  action_of-stored OpType.insert (scalar (ScalarValue.counter v)) h = refl
  action_of-stored OpType.insert (scalar (ScalarValue.timestamp v)) h = refl
  action_of-stored OpType.insert (scalar (ScalarValue.string s)) h = refl
  action_of-stored OpType.insert (scalar (ScalarValue.bytes b)) h = refl
  action_of-stored OpType.make_object (scalar sv) h = absurd h
  action_of-stored OpType.splice_text (object t) h = absurd h
  action_of-stored OpType.splice_text (scalar ScalarValue.null) h = absurd h
  action_of-stored OpType.splice_text (scalar (ScalarValue.bool b)) h = absurd h
  action_of-stored OpType.splice_text (scalar (ScalarValue.int v)) h = absurd h
  action_of-stored OpType.splice_text (scalar (ScalarValue.uint v)) h = absurd h
  action_of-stored OpType.splice_text (scalar (ScalarValue.double v)) h = absurd h
  action_of-stored OpType.splice_text (scalar (ScalarValue.counter v)) h = absurd h
  action_of-stored OpType.splice_text (scalar (ScalarValue.timestamp v)) h = absurd h
  action_of-stored OpType.splice_text (scalar (ScalarValue.bytes b)) h = absurd h

-- The ids that operations in a row have.
abbrev pub AreNumbered : ActorId → ℕ → List Op → Type 0
AreNumbered change_actor counter [] = Unit
AreNumbered change_actor counter (o ∷ os) =
    (o.id ≡ record { counter = counter % 2 ^ 64; actor = change_actor })
    × AreNumbered change_actor (counter + 1) os
