-- ===== src/Storage/Columns/Spec.antt =====
-- src/storage/columns/column_spec.hpp: what identifies a column.
use Prim.Native.Nat.{bit_and, bit_or}
use automerge_cpp.Prelude.{
  ℕ, ◌+◌, ◌*◌, ◌/◌, ◌%◌, ◌^◌, ◌<◌, ◌≡◌, refl, ap, ◌∙◌, arith, if◌then◌else◌, ◌==◌, Bool, true,
  false, not,
}
use automerge_cpp.Prelude.Bits.{bit_and_07, bit_and-power, bit_or_shifted}

-- `delta_int` is another name of `integer_key`.
pub data ColumnType : Type 0 where
  group_card actor_id integer_key boolean string_rle value_meta value_raw integer_rle : ColumnType

abbrev pub type_code : ColumnType → ℕ
type_code ColumnType.group_card = 0
type_code ColumnType.actor_id = 1
type_code ColumnType.integer_key = 2
type_code ColumnType.boolean = 3
type_code ColumnType.string_rle = 4
type_code ColumnType.value_meta = 5
type_code ColumnType.value_raw = 6
type_code ColumnType.integer_rle = 7

abbrev pub code_type : ℕ → ColumnType
code_type n =
    if n == 0
    then ColumnType.group_card
    else if n == 1
    then ColumnType.actor_id
    else if n == 2
    then ColumnType.integer_key
    else if n == 3
    then ColumnType.boolean
    else if n == 4
    then ColumnType.string_rle
    else if n == 5
    then ColumnType.value_meta
    else if n == 6
    then ColumnType.value_raw
    else ColumnType.integer_rle

pub record ColumnSpec : Type 0 where
  pub column_id : ℕ
  pub type : ColumnType
  pub deflate : Bool

abbrev bit : Bool → ℕ
bit true = 1
bit false = 0

-- The three fields of a 32-bit number, the lowest first.
unfoldable pub to_u32 : ColumnSpec → ℕ
to_u32 s = bit_or (type_code s.type) (bit_or (bit s.deflate * 2 ^ 3) (s.column_id * 2 ^ 4 % 2 ^ 32))

unfoldable pub from_u32 : ℕ → ColumnSpec
from_u32 raw = record {
  column_id = raw / 2 ^ 4;
  type = code_type (bit_and raw 0x07);
  deflate = not (bit_and raw 0x08 == 0);
}

code_type-type_code : (t : ColumnType) → code_type (type_code t) ≡ t
code_type-type_code ColumnType.group_card = refl
code_type-type_code ColumnType.actor_id = refl
code_type-type_code ColumnType.integer_key = refl
code_type-type_code ColumnType.boolean = refl
code_type-type_code ColumnType.string_rle = refl
code_type-type_code ColumnType.value_meta = refl
code_type-type_code ColumnType.value_raw = refl
code_type-type_code ColumnType.integer_rle = refl

type_code_bound : (t : ColumnType) → type_code t < 8
type_code_bound ColumnType.group_card = omega arith
type_code_bound ColumnType.actor_id = omega arith
type_code_bound ColumnType.integer_key = omega arith
type_code_bound ColumnType.boolean = omega arith
type_code_bound ColumnType.string_rle = omega arith
type_code_bound ColumnType.value_meta = omega arith
type_code_bound ColumnType.value_raw = omega arith
type_code_bound ColumnType.integer_rle = omega arith

bit_bound : (b : Bool) → bit b < 2
bit_bound true = omega arith
bit_bound false = omega arith

-- The fields do not overlap.
pub to_u32-sum :
    (s : ColumnSpec)
    → s.column_id < 2 ^ 28
    → to_u32 s ≡ type_code s.type + (bit s.deflate + s.column_id * 2) * 8
unfolding to_u32
to_u32-sum s small =
    let whole : s.column_id * 2 ^ 4 % 2 ^ 32 ≡ s.column_id * 2 ^ 4 = omega arith in
    let upper : bit_or (bit s.deflate * 2 ^ 3) (s.column_id * 2 ^ 4)
        ≡ (bit s.deflate + s.column_id * 2) * 2 ^ 3 =
      bit_or_shifted 4 (bit s.deflate * 2 ^ 3) s.column_id (omega (arith, bit_bound s.deflate))
      ∙ omega arith in
    rw (whole, upper)
      (bit_or_shifted 3 (type_code s.type) (bit s.deflate + s.column_id * 2)
        (type_code_bound s.type))

from_sum :
    (t : ColumnType) (b : Bool) (id : ℕ)
    → from_u32 (type_code t + (bit b + id * 2) * 8)
      ≡ record { column_id = id; type = t; deflate = b }
unfolding from_u32
from_sum t b id =
    let raw = type_code t + (bit b + id * 2) * 8 in
    let high : raw / 2 ^ 4 ≡ id = omega (arith, type_code_bound t, bit_bound b) in
    let low : bit_and raw 0x07 ≡ type_code t = bit_and_07 raw ∙ omega (arith, type_code_bound t) in
    let flag : bit_and raw 0x08 ≡ bit b * 8 =
      bit_and-power 3 raw ∙ omega (arith, type_code_bound t, bit_bound b) in
    rw (high, low, flag, code_type-type_code t) (fields b)
  where
    fields :
        (c : Bool)
        → ◌≡◌ {A = ColumnSpec}
            (record { column_id = id; type = t; deflate = not (bit c * 8 == 0) })
            (record { column_id = id; type = t; deflate = c })
    fields true = refl
    fields false = refl

-- The specification of a column with an id of 28 bits is the one that its number stands for.
pub from_u32-to_u32 : (s : ColumnSpec) → s.column_id < 2 ^ 28 → from_u32 (to_u32 s) ≡ s
from_u32-to_u32 s small = ap from_u32 (to_u32-sum s small) ∙ from_sum s.type s.deflate s.column_id

pub to_u32-bound : (s : ColumnSpec) → s.column_id < 2 ^ 28 → to_u32 s < 2 ^ 32
to_u32-bound s small =
    rw (to_u32-sum s small) (omega (arith, type_code_bound s.type, bit_bound s.deflate))
