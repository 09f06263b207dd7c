-- ===== src/Storage/Columns/Fits.antt =====
-- The cells of operations whose numbers and lengths fit.
use automerge_cpp.Prelude.{ℕ, ◌+◌, ◌^◌, ◌≤◌, ◌<◌, ◌≡◌, refl, ap, arith, length, map, All}
use automerge_cpp.Prelude.{Bool, true, false, Option, none, some, List, [], ◌∷◌}
use automerge_cpp.Prelude.Order.{bytes_ord}
use automerge_cpp.Types.{ActorId, OpId, Prop, ObjType, Value, object, scalar, OpType, Op, Str}
use automerge_cpp.Encoding.Rle.{uint64, strings}
use automerge_cpp.Encoding.Rle.RoundTrip.{GoodValue, All-append}
use automerge_cpp.Encoding.Delta.RoundTrip.{Int64}
use automerge_cpp.Storage.Serializer.{actor_index}
use automerge_cpp.Storage.Columns.ValueRoundTrip.{FitsColumn}
use automerge_cpp.Storage.Reads.{Reads-uleb128}
use automerge_cpp.Storage.RoundTrip.{Reads-string}
use automerge_cpp.Storage.Columns.ChangeOps.{find_actor_idx, action_code}
use automerge_cpp.Storage.Columns.Cells.{
  actor_cell, counter_cell, obj_id, key_element, key_actor_of, key_counter_of, key_string_of,
  all_preds,
}

abbrev pub Number : Option ℕ → Type 0
Number x = GoodValue uint64 (λ v. v < 2 ^ 64) (λ v h. Reads-uleb128 v h) x

abbrev pub Name : Option Str → Type 0
Name x = GoodValue strings (λ s. length s < 2 ^ 64) (λ s h. Reads-string s h) x

-- The numbers and the lengths of an operation fit into their cells.
abbrev pub FitsId : OpId → Type 0
FitsId id = id.counter < 2 ^ 64

abbrev pub FitsSome : Option OpId → Type 0
FitsSome none = Unit
FitsSome (some id) = FitsId id

abbrev pub FitsKey : Prop → Type 0
FitsKey (Prop.key s) = length s < 2 ^ 64
FitsKey (Prop.index i) = Unit

pub record OpFits (o : Op) : Type 0 where
  pub obj : FitsSome (obj_id o.obj)
  pub name : FitsKey o.key
  pub after : FitsSome o.insert_after
  pub preds : All FitsId o.pred
  pub count : length o.pred < 2 ^ 64
  pub payload : FitsColumn o.value

pub All-map :
    {A B : Type 0} (f : A → B) (P : A → Type 0) (Q : B → Type 0)
    → ((a : A) → P a → Q (f a))
    → (xs : List A) → All P xs
    → All Q (map f xs)
All-map f P Q h [] all = tt
All-map f P Q h (x ∷ xs) all = (h x all.0, All-map f P Q h xs all.1)

pub length-map : {A B : Type 0} (f : A → B) (xs : List A) → length (map f xs) ≡ length xs
length-map f [] = refl
length-map f (x ∷ xs) = omega (arith, length-map f xs)

pub map-map :
    {A B C : Type 0} (g : B → C) (f : A → B) (xs : List A)
    → map g (map f xs) ≡ map (λ x. g (f x)) xs
map-map g f [] = refl
map-map g f (x ∷ xs) = ap (◌∷◌ (g (f x))) (map-map g f xs)

actor_index-bound :
    (a : ActorId) (table : List ActorId) (i : ℕ) → actor_index a table i ≤ i + length table
unfolding actor_index
actor_index-bound a [] i = omega arith
actor_index-bound a (b ∷ table) i = ground (arith, actor_index-bound a table (i + 1))

pub action_code-bound : (action : OpType) (v : Value) → action_code action v < 2 ^ 64
action_code-bound OpType.put v = omega arith
action_code-bound OpType.del v = omega arith
action_code-bound OpType.increment v = omega arith
action_code-bound OpType.mark v = omega arith
action_code-bound OpType.splice_text v = omega arith
action_code-bound OpType.make_object (scalar sv) = omega arith
action_code-bound OpType.make_object (object ObjType.map) = omega arith
action_code-bound OpType.make_object (object ObjType.list) = omega arith
action_code-bound OpType.make_object (object ObjType.text) = omega arith
action_code-bound OpType.make_object (object ObjType.table) = omega arith
action_code-bound OpType.insert (scalar sv) = omega arith
action_code-bound OpType.insert (object ObjType.map) = omega arith
action_code-bound OpType.insert (object ObjType.list) = omega arith
action_code-bound OpType.insert (object ObjType.text) = omega arith
action_code-bound OpType.insert (object ObjType.table) = omega arith

pub FitsSome-element :
    (inserts : Bool) (pred : List OpId) (after : Option OpId)
    → All FitsId pred
    → FitsSome after
    → FitsSome (key_element inserts pred after)
FitsSome-element inserts pred (some id) preds fits = fits
FitsSome-element true pred none preds fits = tt
FitsSome-element false [] none preds fits = tt
FitsSome-element false (p ∷ pred) none preds fits = preds.0

pub Int64-counter : (id : Option OpId) → FitsSome id → Int64 (counter_cell id)
Int64-counter none fits = omega arith
Int64-counter (some id) fits = fits

pub Int64-key_counter : (at : Prop) (id : Option OpId) → FitsSome id → Int64 (key_counter_of at id)
Int64-key_counter (Prop.key s) id fits = tt
Int64-key_counter (Prop.index i) id fits = Int64-counter id fits

module _ (table : List ActorId) (large : length table < 2 ^ 64) where
  pub actor_good : (a : ActorId) → find_actor_idx table a < 2 ^ 64
  actor_good a = omega (arith, actor_index-bound a table 0)

  pub Number-actor : (id : Option OpId) → Number (actor_cell table id)
  Number-actor none = tt
  Number-actor (some id) = actor_good id.actor

  pub Number-key_actor : (at : Prop) (id : Option OpId) → Number (key_actor_of table at id)
  Number-key_actor (Prop.key s) id = tt
  Number-key_actor (Prop.index i) id = Number-actor id

pub Name-key : (at : Prop) → FitsKey at → Name (key_string_of at)
Name-key (Prop.key s) fits = fits
Name-key (Prop.index i) fits = tt

pub all_preds-FitsId : (os : List Op) → All OpFits os → All FitsId (all_preds os)
all_preds-FitsId [] fits = tt
all_preds-FitsId (o ∷ os) fits =
    All-append FitsId o.pred (all_preds os) (fits.0).preds (all_preds-FitsId os fits.1)
