-- ===== src/Storage/Columns/Found.antt =====
-- The columns of operations are found under their specifications.
use automerge_cpp.Prelude.{ℕ, ◌≡◌, refl, sym, ap, ◌∙◌, if◌then◌else◌, ◌==◌, Bool-cases, inl, inr}
use automerge_cpp.Prelude.{Bool, true, false, ◌&&◌, List, [], ◌∷◌, ◌++◌, append_assoc, append-nil}
use automerge_cpp.Storage.Columns.Spec.{ColumnSpec, type_code}
use automerge_cpp.Storage.Columns.Standard as Standard
use automerge_cpp.Storage.Columns.Raw.{RawColumn}
use automerge_cpp.Storage.Columns.ChangeOps.{
  OpEncoders, add_col, add_col_if, columns_of, numbers, names, counters, flags,
}
use automerge_cpp.Storage.Columns.ReadOps.{find_col}

abbrev SpecBytes : Type 0
SpecBytes = ColumnSpec × List ℕ

abbrev same_spec : ColumnSpec → ColumnSpec → Bool
same_spec s t = s.column_id == t.column_id && type_code s.type == type_code t.type

-- The bytes that are not empty, or the others.
abbrev or_else : List ℕ → List ℕ → List ℕ
or_else [] others = others
or_else (b ∷ bytes) others = b ∷ bytes

abbrev lookup : ColumnSpec → List SpecBytes → List ℕ
lookup spec [] = []
lookup spec ((s, bytes) ∷ pairs) =
    let rest = lookup spec pairs in if same_spec s spec then or_else bytes rest else rest

unfoldable adds : List RawColumn → List SpecBytes → List RawColumn
adds columns [] = columns
adds columns ((s, bytes) ∷ pairs) = adds (add_col s bytes columns) pairs

-- The columns of the pairs with bytes.
abbrev gathered : List SpecBytes → List RawColumn
gathered [] = []
gathered ((s, bytes) ∷ pairs) = add_col s bytes [] ++ gathered pairs

adds-gathered :
    (columns : List RawColumn) (pairs : List SpecBytes)
    → adds columns pairs ≡ columns ++ gathered pairs
unfolding adds
adds-gathered columns [] = sym (append-nil columns)
adds-gathered columns ((s, []) ∷ pairs) = adds-gathered columns pairs
adds-gathered columns ((s, b ∷ bytes) ∷ pairs) =
    adds-gathered (columns ++ (record { spec = s; bytes = b ∷ bytes } ∷ [])) pairs
    ∙ append_assoc columns (record { spec = s; bytes = b ∷ bytes } ∷ []) (gathered pairs)

find_col-gathered :
    (spec : ColumnSpec) (pairs : List SpecBytes)
    → find_col spec (gathered pairs) ≡ lookup spec pairs
find_col-gathered spec [] = refl
find_col-gathered spec ((s, []) ∷ pairs) = elim (Bool-cases (same_spec s spec)) [
  | inl same ↦ rw same (find_col-gathered spec pairs)
  | inr other ↦ rw other (find_col-gathered spec pairs)
]
find_col-gathered spec ((s, b ∷ bytes) ∷ pairs) = elim (Bool-cases (same_spec s spec)) [
  | inl same ↦ rw same refl
  | inr other ↦ rw other (find_col-gathered spec pairs)
]

abbrev where_true : Bool → List ℕ → List ℕ
where_true true bytes = bytes
where_true false bytes = []

abbrev pairs_of : OpEncoders → List SpecBytes
pairs_of e =
    (Standard.obj_actor, numbers e.obj_actor)
    ∷ (Standard.obj_counter, counters e.obj_counter)
    ∷ (Standard.key_actor, numbers e.key_actor)
    ∷ (Standard.key_counter, counters e.key_counter)
    ∷ (Standard.key_string, names e.key_string)
    ∷ (Standard.insert, flags e.insert)
    ∷ (Standard.action, numbers e.action)
    ∷ (Standard.value_meta, e.values.meta_out)
    ∷ (Standard.value_raw, e.values.raw_out)
    ∷ (Standard.pred_group, numbers e.pred_group)
    ∷ (Standard.pred_actor, numbers e.pred_actor)
    ∷ (Standard.pred_counter, counters e.pred_counter)
    ∷ (Standard.expand, where_true e.has_expand (flags e.expand))
    ∷ (Standard.mark_name, where_true e.has_mark_name (names e.mark_name))
    ∷ []

add_col_if-where_true :
    (b : Bool) (s : ColumnSpec) (bytes : List ℕ) (columns : List RawColumn)
    → add_col_if b s bytes columns ≡ add_col s (where_true b bytes) columns
add_col_if-where_true true s bytes columns = refl
add_col_if-where_true false s bytes columns = refl

columns_of-adds : (e : OpEncoders) → columns_of e ≡ adds [] (pairs_of e)
unfolding columns_of adds
columns_of-adds e =
    add_col_if-where_true e.has_mark_name Standard.mark_name (names e.mark_name) _
    ∙ ap (add_col Standard.mark_name (where_true e.has_mark_name (names e.mark_name)))
        (add_col_if-where_true e.has_expand Standard.expand (flags e.expand) _)

-- What is found is what the pairs have.
pub find_col-columns_of :
    (spec : ColumnSpec) (e : OpEncoders) → find_col spec (columns_of e) ≡ lookup spec (pairs_of e)
find_col-columns_of spec e =
    ap (find_col spec) (columns_of-adds e ∙ adds-gathered [] (pairs_of e))
    ∙ find_col-gathered spec (pairs_of e)

pub or_else_nil : (bytes : List ℕ) → or_else bytes [] ≡ bytes
or_else_nil [] = refl
or_else_nil (b ∷ bytes) = refl

pub found-obj_actor :
    (e : OpEncoders) → find_col Standard.obj_actor (columns_of e) ≡ numbers e.obj_actor
found-obj_actor e = find_col-columns_of Standard.obj_actor e ∙ or_else_nil (numbers e.obj_actor)

pub found-obj_counter :
    (e : OpEncoders) → find_col Standard.obj_counter (columns_of e) ≡ counters e.obj_counter
found-obj_counter e =
    find_col-columns_of Standard.obj_counter e ∙ or_else_nil (counters e.obj_counter)

pub found-key_actor :
    (e : OpEncoders) → find_col Standard.key_actor (columns_of e) ≡ numbers e.key_actor
found-key_actor e = find_col-columns_of Standard.key_actor e ∙ or_else_nil (numbers e.key_actor)

pub found-key_counter :
    (e : OpEncoders) → find_col Standard.key_counter (columns_of e) ≡ counters e.key_counter
found-key_counter e =
    find_col-columns_of Standard.key_counter e ∙ or_else_nil (counters e.key_counter)

pub found-key_string :
    (e : OpEncoders) → find_col Standard.key_string (columns_of e) ≡ names e.key_string
found-key_string e = find_col-columns_of Standard.key_string e ∙ or_else_nil (names e.key_string)

pub found-insert : (e : OpEncoders) → find_col Standard.insert (columns_of e) ≡ flags e.insert
found-insert e = find_col-columns_of Standard.insert e ∙ or_else_nil (flags e.insert)

pub found-action : (e : OpEncoders) → find_col Standard.action (columns_of e) ≡ numbers e.action
found-action e = find_col-columns_of Standard.action e ∙ or_else_nil (numbers e.action)

pub found-value_meta :
    (e : OpEncoders) → find_col Standard.value_meta (columns_of e) ≡ e.values.meta_out
found-value_meta e = find_col-columns_of Standard.value_meta e ∙ or_else_nil e.values.meta_out

pub found-value_raw :
    (e : OpEncoders) → find_col Standard.value_raw (columns_of e) ≡ e.values.raw_out
found-value_raw e = find_col-columns_of Standard.value_raw e ∙ or_else_nil e.values.raw_out

pub found-pred_group :
    (e : OpEncoders) → find_col Standard.pred_group (columns_of e) ≡ numbers e.pred_group
found-pred_group e = find_col-columns_of Standard.pred_group e ∙ or_else_nil (numbers e.pred_group)

pub found-pred_actor :
    (e : OpEncoders) → find_col Standard.pred_actor (columns_of e) ≡ numbers e.pred_actor
found-pred_actor e = find_col-columns_of Standard.pred_actor e ∙ or_else_nil (numbers e.pred_actor)

pub found-pred_counter :
    (e : OpEncoders) → find_col Standard.pred_counter (columns_of e) ≡ counters e.pred_counter
found-pred_counter e =
    find_col-columns_of Standard.pred_counter e ∙ or_else_nil (counters e.pred_counter)
