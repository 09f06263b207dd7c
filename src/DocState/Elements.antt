-- ===== src/DocState/Elements.antt =====
-- What a put at an index, `apply_op` of another replica's `set`, does to the elements of a list.
use automerge_cpp.Prelude.{
  ℕ, ◌≡◌, ◌≢◌, refl, sym, ap, ◌∙◌, arith, Bool-cases, inl, inr, if◌then◌else◌,
}
use automerge_cpp.Prelude.{Option, none, some, List, [], ◌∷◌}
use automerge_cpp.Prelude.Order.{eqb_refl}
use automerge_cpp.Types.{OpId, ObjId, Op, OpType, Prop, Value, op_id_ord, obj_id_ord}
use automerge_cpp.DocState.{
  ListElement, ObjectState, DocState, get_object, set_object, modify_object, contains,
}
use automerge_cpp.DocState.Apply.{
  modify_first, apply_list_set, apply_action, ensure_nested, advance_counter, apply_op,
}
use automerge_cpp.DocState.Registers.{target}

-- The elements of a list, tombstones included.
unfoldable pub elements : ObjId → DocState → List ListElement
unfolding get_object
elements obj s = elim (get_object obj s) [ none ↦ [] | some state ↦ state.list_elements ]

abbrev pub with_value : Value → ListElement → ListElement
with_value v e = record e { value = v }

get-modify :
    (obj : ObjId) (f : ObjectState → ObjectState) (s : DocState) {st : ObjectState}
    → get_object obj s ≡ some st
    → get_object obj (modify_object obj f s) ≡ some (f st)
unfolding modify_object set_object get_object
get-modify obj f s h = ground (arith, eqb_refl obj)

-- An operation on an object that is there acts on it by its action.
pub get-apply_op :
    (o : Op) (s : DocState) {st : ObjectState}
    → get_object o.obj s ≡ some st
    → get_object o.obj (apply_op o s) ≡ some (apply_action o.action o.key o st)
unfolding apply_op
get-apply_op o s h =
    get-modify o.obj (apply_action o.action o.key o)
      (ensure_nested o.id o.value (advance_counter o.id s)) (target o s h)

get-set :
    (o : Op) (i : ℕ) (s : DocState) {st : ObjectState}
    → o.action ≡ OpType.put
    → o.key ≡ Prop.index i
    → get_object o.obj s ≡ some st
    → get_object o.obj (apply_op o s) ≡ some (apply_list_set o st)
unfolding apply_action
get-set o i s {st} put at h = get-apply_op o s h ∙ simp (put, at) refl

modify_first-twice :
    (pred : List OpId) (v w : Value) (es : List ListElement)
    → modify_first pred (with_value w) (modify_first pred (with_value v) es)
      ≡ modify_first pred (with_value w) es
unfolding modify_first
modify_first-twice pred v w [] = refl
modify_first-twice pred v w (e ∷ es) = elim (Bool-cases (contains pred e.insert_id)) [
  | inl h ↦ rw (h, h) refl
  | inr h ↦ rw (h, h) (ap (◌∷◌ e) (modify_first-twice pred v w es))
]

-- The value of the first element that is named.
unfoldable pub first_value : List OpId → List ListElement → Option Value
unfolding contains
first_value pred [] = none
first_value pred (e ∷ es) =
    let rest = first_value pred es in if contains pred e.insert_id then some e.value else rest

first_value-modify :
    (pred : List OpId) (v : Value) (es : List ListElement)
    → first_value pred es ≢ none
    → first_value pred (modify_first pred (with_value v) es) ≡ some v
unfolding first_value modify_first
first_value-modify pred v [] h = absurd (h refl)
first_value-modify pred v (e ∷ es) h = elim (Bool-cases (contains pred e.insert_id)) [
  | inl p ↦ rw (p, p) refl
  | inr p ↦ rw (p, p) (first_value-modify pred v es (λ e. h (rw p e)))
]

pub elements-get :
    (obj : ObjId) (s : DocState) {st : ObjectState}
    → get_object obj s ≡ some st
    → elements obj s ≡ st.list_elements
unfolding elements
elements-get obj s h = ground arith

set_twice :
    (a b : Op) (i j : ℕ) (s : DocState) {st : ObjectState}
    → a.action ≡ OpType.put
    → b.action ≡ OpType.put
    → a.key ≡ Prop.index i
    → b.key ≡ Prop.index j
    → b.obj ≡ a.obj
    → b.pred ≡ a.pred
    → get_object a.obj s ≡ some st
    → elements a.obj (apply_op b (apply_op a s))
      ≡ modify_first a.pred (with_value b.value) st.list_elements
unfolding apply_list_set
set_twice a b i j s {st} put_a put_b at_a at_b same_list same_pred present =
    let there : get_object b.obj (apply_op a s) ≡ some (apply_list_set a st) =
      ap (λ (t : ObjId). get_object t (apply_op a s)) same_list
      ∙ get-set a i s put_a at_a present in
    let after : get_object a.obj (apply_op b (apply_op a s))
        ≡ some (apply_list_set b (apply_list_set a st)) =
      ap (λ (t : ObjId). get_object t (apply_op b (apply_op a s))) (sym same_list)
      ∙ get-set b j (apply_op a s) put_b at_b there in
    elements-get a.obj (apply_op b (apply_op a s)) after
    ∙ ap
        (λ (p : List OpId). modify_first p (with_value b.value) (apply_list_set a st).list_elements)
        same_pred
    ∙ modify_first-twice a.pred a.value b.value st.list_elements

-- Two puts of different values at an index, both of which name the same element of the list: the
-- lists differ in the two orders, since the put that is applied last stays.
pub sets_diverge :
    (a b : Op) (i j : ℕ) (s : DocState) {st : ObjectState}
    → a.action ≡ OpType.put
    → b.action ≡ OpType.put
    → a.key ≡ Prop.index i
    → b.key ≡ Prop.index j
    → b.obj ≡ a.obj
    → b.pred ≡ a.pred
    → a.value ≢ b.value
    → get_object a.obj s ≡ some st
    → first_value a.pred st.list_elements ≢ none
    → elements a.obj (apply_op b (apply_op a s)) ≢ elements a.obj (apply_op a (apply_op b s))
sets_diverge a b i j s {st} put_a put_b at_a at_b list pred differ present named e =
    let values : some b.value ≡ some a.value =
      sym (first_value-modify a.pred b.value st.list_elements named)
      ∙ ap (first_value a.pred)
          (sym (set_twice a b i j s put_a put_b at_a at_b list pred present) ∙ e ∙ other)
      ∙ first_value-modify a.pred a.value st.list_elements named in
    differ (cc values)
  where
    there : get_object b.obj s ≡ some st
    there = ap (λ (t : ObjId). get_object t s) list ∙ present

    other :
        elements a.obj (apply_op a (apply_op b s))
        ≡ modify_first a.pred (with_value a.value) st.list_elements
    other =
        ap (λ (t : ObjId). elements t (apply_op a (apply_op b s))) (sym list)
        ∙ set_twice b a j i s put_b put_a at_b at_a (sym list) (sym pred) there
        ∙ ap (λ (p : List OpId). modify_first p (with_value a.value) st.list_elements) pred
