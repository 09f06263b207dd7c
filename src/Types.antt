-- ===== src/Types.antt =====
-- The data of include/automerge-cpp/types.hpp, value.hpp, op.hpp and change.hpp. A byte is a number
-- below 256, a `std::string` is the list of its bytes, and an `int64_t` is its 64-bit pattern.
use automerge_cpp.Prelude.{ℕ, ◌+◌, ◌%◌, ◌^◌, ◌≡◌, refl, compare, Ordering, ap, arith}
use automerge_cpp.Prelude.{Bool, true, false, Option, List, all, ◌==◌}
use automerge_cpp.Prelude.Order.{Ord, flip, then_by, compare_bytes, bytes_ord}
use automerge_cpp.Prelude.Order.{
  compare_bytes_refl, compare_bytes-eq, compare_bytes-flip, compare_bytes_trans,
}

-- `std::string`
abbrev pub Str : Type 0
Str = List ℕ

pub record ActorId : Type 0 where
  pub bytes : List ℕ

pub record ChangeHash : Type 0 where
  pub bytes : List ℕ

-- `is_zero` of `ActorId` and of `ChangeHash`.
unfoldable pub is_zero : List ℕ → Bool
is_zero bytes = all (λ b. b == 0) bytes

pub record OpId : Type 0 where
  pub counter : ℕ
  pub actor : ActorId

pub data ObjId : Type 0 where
  root : ObjId
  op : OpId → ObjId

unfoldable pub is_root : ObjId → Bool
is_root root = true
is_root (op id) = false

pub data Prop : Type 0 where
  key : Str → Prop
  index : ℕ → Prop

pub data ObjType : Type 0 where
  map list text table : ObjType

pub data ScalarValue : Type 0 where
  null : ScalarValue
  bool : Bool → ScalarValue
  int : ℕ → ScalarValue
  uint : ℕ → ScalarValue
  double : ℕ → ScalarValue
  counter : ℕ → ScalarValue
  timestamp : ℕ → ScalarValue
  string : Str → ScalarValue
  bytes : List ℕ → ScalarValue

pub data Value : Type 0 where
  object : ObjType → Value
  scalar : ScalarValue → Value

pub data OpType : Type 0 where
  put del insert make_object increment splice_text mark : OpType

pub record Op : Type 0 where
  pub id : OpId
  pub obj : ObjId
  pub key : Prop
  pub action : OpType
  pub value : Value
  pub pred : List OpId
  pub insert_after : Option OpId

pub record Change : Type 0 where
  pub actor : ActorId
  pub seq : ℕ
  pub start_op : ℕ
  pub timestamp : ℕ
  pub message : Option Str
  pub deps : List ChangeHash
  pub operations : List Op

-- The defaulted `operator<=>` of `OpId`: the counter first, then the actor.
unfoldable pub compare_op_id : OpId → OpId → Ordering
compare_op_id a b =
    then_by (compare a.counter b.counter) (compare_bytes a.actor.bytes b.actor.bytes)

-- The defaulted `operator<=>` of `ObjId`: a variant compares by its alternative first.
unfoldable pub compare_obj_id : ObjId → ObjId → Ordering
unfolding compare_op_id
compare_obj_id root root = Ordering.eq
compare_obj_id root (op b) = Ordering.lt
compare_obj_id (op a) root = Ordering.gt
compare_obj_id (op a) (op b) = compare_op_id a b

pub compare_op_id_refl : (a : OpId) → compare_op_id a a ≡ Ordering.eq
unfolding compare_op_id
compare_op_id_refl a = ground (arith, compare_bytes_refl a.actor.bytes)

pub compare_op_id-eq : (a b : OpId) → compare_op_id a b ≡ Ordering.eq → a ≡ b
unfolding compare_op_id
compare_op_id-eq a b h = ground (arith, compare_bytes-eq a.actor.bytes b.actor.bytes)

pub compare_op_id-flip : (a b : OpId) → compare_op_id b a ≡ flip (compare_op_id a b)
unfolding compare_op_id
compare_op_id-flip a b = ground (arith, compare_bytes-flip a.actor.bytes b.actor.bytes)

pub compare_op_id_trans :
    (a b c : OpId)
    → compare_op_id a b ≡ Ordering.lt
    → compare_op_id b c ≡ Ordering.lt
    → compare_op_id a c ≡ Ordering.lt
unfolding compare_op_id
compare_op_id_trans a b c h k =
    ground (arith, compare_bytes_trans a.actor.bytes b.actor.bytes c.actor.bytes)

pub compare_obj_id_refl : (a : ObjId) → compare_obj_id a a ≡ Ordering.eq
unfolding compare_obj_id
compare_obj_id_refl root = refl
compare_obj_id_refl (op a) = compare_op_id_refl a

pub compare_obj_id-eq : (a b : ObjId) → compare_obj_id a b ≡ Ordering.eq → a ≡ b
unfolding compare_obj_id
compare_obj_id-eq root root h = refl
compare_obj_id-eq root (op b) h = cc
compare_obj_id-eq (op a) root h = cc
compare_obj_id-eq (op a) (op b) h = ap op (compare_op_id-eq a b h)

pub compare_obj_id-flip : (a b : ObjId) → compare_obj_id b a ≡ flip (compare_obj_id a b)
unfolding compare_obj_id
compare_obj_id-flip root root = refl
compare_obj_id-flip root (op b) = refl
compare_obj_id-flip (op a) root = refl
compare_obj_id-flip (op a) (op b) = compare_op_id-flip a b

pub compare_obj_id_trans :
    (a b c : ObjId)
    → compare_obj_id a b ≡ Ordering.lt
    → compare_obj_id b c ≡ Ordering.lt
    → compare_obj_id a c ≡ Ordering.lt
unfolding compare_obj_id
compare_obj_id_trans root root c h k = cc
compare_obj_id_trans root (op b) root h k = cc
compare_obj_id_trans root (op b) (op c) h k = refl
compare_obj_id_trans (op a) root c h k = cc
compare_obj_id_trans (op a) (op b) root h k = cc
compare_obj_id_trans (op a) (op b) (op c) h k = compare_op_id_trans a b c h k

pub actor_eq : (a b : ActorId) → a.bytes ≡ b.bytes → a ≡ b
actor_eq a b h = λ i. record { bytes = h i }

pub hash_eq : (a b : ChangeHash) → a.bytes ≡ b.bytes → a ≡ b
hash_eq a b h = λ i. record { bytes = h i }

instance abbrev pub actor_ord : Ord ActorId
actor_ord = record {
  cmp = λ a b. compare_bytes a.bytes b.bytes;
  cmp_refl = λ a. compare_bytes_refl a.bytes;
  cmp-eq = λ a b h. actor_eq a b (compare_bytes-eq a.bytes b.bytes h);
  cmp-flip = λ a b. compare_bytes-flip a.bytes b.bytes;
  cmp_trans = λ a b c. compare_bytes_trans a.bytes b.bytes c.bytes;
}

instance abbrev pub hash_ord : Ord ChangeHash
hash_ord = record {
  cmp = λ a b. compare_bytes a.bytes b.bytes;
  cmp_refl = λ a. compare_bytes_refl a.bytes;
  cmp-eq = λ a b h. hash_eq a b (compare_bytes-eq a.bytes b.bytes h);
  cmp-flip = λ a b. compare_bytes-flip a.bytes b.bytes;
  cmp_trans = λ a b c. compare_bytes_trans a.bytes b.bytes c.bytes;
}

instance abbrev pub op_id_ord : Ord OpId
op_id_ord = record {
  cmp = compare_op_id;
  cmp_refl = compare_op_id_refl;
  cmp-eq = compare_op_id-eq;
  cmp-flip = compare_op_id-flip;
  cmp_trans = compare_op_id_trans;
}

instance abbrev pub obj_id_ord : Ord ObjId
obj_id_ord = record {
  cmp = compare_obj_id;
  cmp_refl = compare_obj_id_refl;
  cmp-eq = compare_obj_id-eq;
  cmp-flip = compare_obj_id-flip;
  cmp_trans = compare_obj_id_trans;
}

-- `int64_t` addition on bit patterns, with the wrap-around of two's complement.
unfoldable pub add_i64 : ℕ → ℕ → ℕ
add_i64 a b = (a + b) % 2 ^ 64
