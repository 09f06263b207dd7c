-- ===== src/Document/Patches/Contents.antt =====
-- What the patches of a transaction tell, against its operations.
use automerge_cpp.Prelude.{
  ℕ, ◌+◌, ◌≤◌, ◌≡◌, refl, sym, ap, ◌∙◌, subst, arith, if◌then◌else◌, length, Bool-cases, inl, inr,
  All,
}
use automerge_cpp.Prelude.{
  Bool, true, false, ◌&&◌, Option, none, some, List, [], ◌∷◌, ◌++◌, append_assoc,
}
use automerge_cpp.Prelude.Order.{eqb}
use automerge_cpp.Types.{ObjId, Prop, OpType, Op, Str, obj_id_ord}
use automerge_cpp.DocState.ListOps.{text_of}
use automerge_cpp.Document.Patches.{
  PatchAction, Patch, is_del, is_splice, is_index, span_deletes, splices, span_text, splice_follows,
  delete_patch,
}

-- An insert or a splice is at an index, as every transaction records it.
abbrev pub IsKeyed : OpType → Prop → Type 0
IsKeyed OpType.insert (Prop.key k) = ⊥
IsKeyed OpType.splice_text (Prop.key k) = ⊥
IsKeyed _ _ = Unit

abbrev pub AllKeyed : List Op → Type 0
AllKeyed = All (λ o. IsKeyed o.action o.key)

-- The number of deletes, and the text of the splices in their order.
unfoldable pub deletes : List Op → ℕ
deletes [] = 0
deletes (o ∷ ops) = (if is_del o.action then 1 else 0) + deletes ops

unfoldable pub text_spliced : List Op → Str
text_spliced [] = []
text_spliced (o ∷ ops) = (if is_splice o.action then text_of o.value else []) ++ text_spliced ops

abbrev pub action_deletes : PatchAction → ℕ
action_deletes (PatchAction.delete index count) = count
action_deletes (PatchAction.splice_text index count text) = count
action_deletes _ = 0

abbrev pub action_text : PatchAction → Str
action_text (PatchAction.splice_text index count text) = text
action_text _ = []

unfoldable pub patch_deletes : List Patch → ℕ
patch_deletes [] = 0
patch_deletes (p ∷ ps) = action_deletes p.action + patch_deletes ps

unfoldable pub patch_text : List Patch → Str
patch_text [] = []
patch_text (p ∷ ps) = action_text p.action ++ patch_text ps

-- `ops` starts with `n` deletes and the text `t`, and `rest` is behind them.
pub record Splits (ops : List Op) (n : ℕ) (t : Str) (rest : List Op) : Type 0 where
  pub shorter : length rest ≤ length ops
  pub keyed : AllKeyed ops → AllKeyed rest
  pub counted : deletes ops ≡ n + deletes rest
  pub texted : text_spliced ops ≡ t ++ text_spliced rest

Splits-none : (ops : List Op) → Splits ops 0 [] ops
Splits-none ops = record {
  shorter = omega arith;
  keyed = λ k. k;
  counted = omega arith;
  texted = refl;
}

pub Splits-then :
    {ops mid rest : List Op} {n m : ℕ} {t u : Str}
    → Splits ops n t mid
    → Splits mid m u rest
    → Splits ops (n + m) (t ++ u) rest
Splits-then {rest = rest} {t = t} {u = u} a b = record {
  shorter = omega (arith, a.shorter, b.shorter);
  keyed = λ k. b.keyed (a.keyed k);
  counted = omega (arith, a.counted, b.counted);
  texted = a.texted ∙ ap (◌++◌ t) b.texted ∙ sym (append_assoc t u (text_spliced rest));
}

-- The kinds of operations: a delete, a splice, or neither.
no_splice : (a : OpType) → is_del a ≡ true → is_splice a ≡ false
no_splice OpType.put h = cc
no_splice OpType.del h = refl
no_splice OpType.insert h = cc
no_splice OpType.make_object h = cc
no_splice OpType.increment h = cc
no_splice OpType.splice_text h = cc
no_splice OpType.mark h = cc

no_delete : (a : OpType) → is_splice a ≡ true → is_del a ≡ false
no_delete OpType.put h = cc
no_delete OpType.del h = cc
no_delete OpType.insert h = cc
no_delete OpType.make_object h = cc
no_delete OpType.increment h = cc
no_delete OpType.splice_text h = refl
no_delete OpType.mark h = cc

pub Splits-delete : (o : Op) (ops : List Op) → is_del o.action ≡ true → Splits (o ∷ ops) 1 [] ops
unfolding deletes text_spliced
Splits-delete o ops d = record {
  shorter = omega arith;
  keyed = λ k. k.1;
  counted = rw d refl;
  texted = rw (no_splice o.action d) refl;
}

Splits-splice :
    (o : Op) (ops : List Op) → is_splice o.action ≡ true → Splits (o ∷ ops) 0 (text_of o.value) ops
unfolding deletes text_spliced
Splits-splice o ops h = record {
  shorter = omega arith;
  keyed = λ k. k.1;
  counted = rw (no_delete o.action h) refl;
  texted = rw h refl;
}

pub Splits-other :
    (o : Op) (ops : List Op)
    → is_del o.action ≡ false
    → is_splice o.action ≡ false
    → Splits (o ∷ ops) 0 [] ops
unfolding deletes text_spliced
Splits-other o ops d h = record {
  shorter = omega arith;
  keyed = λ k. k.1;
  counted = rw d (omega arith);
  texted = rw h refl;
}

pub Splits-recount :
    {ops rest : List Op} {n m : ℕ} {t : Str} → n ≡ m → Splits ops n t rest → Splits ops m t rest
Splits-recount {ops} {rest} {t = t} e a = subst (λ (k : ℕ). Splits ops k t rest) e a

and_left : (a b : Bool) → (a && b) ≡ true → a ≡ true
and_left true b h = refl
and_left false b h = cc

pub span_deletes-Splits :
    (obj : ObjId) (i : ℕ) (ops : List Op)
    → Splits ops (span_deletes obj i ops).0 [] (span_deletes obj i ops).1
unfolding span_deletes
span_deletes-Splits obj i [] = Splits-none []
span_deletes-Splits obj i (o ∷ ops) =
    elim (Bool-cases (is_del o.action && (eqb o.obj obj && is_index i o.key))) [
      | inl h ↦ rw h (
          Splits-recount (omega arith)
            (Splits-then (Splits-delete o ops (and_left _ _ h)) (span_deletes-Splits obj i ops)))
      | inr h ↦ rw h (Splits-none (o ∷ ops))
    ]

pub span_text-Splits :
    (obj : ObjId) (ops : List Op) → Splits ops 0 (span_text obj ops).0 (span_text obj ops).1
unfolding span_text
span_text-Splits obj [] = Splits-none []
span_text-Splits obj (o ∷ ops) = elim (Bool-cases (splices obj o)) [
  | inl h ↦ rw h (Splits-then (Splits-splice o ops (and_left _ _ h)) (span_text-Splits obj ops))
  | inr h ↦ rw h (Splits-none (o ∷ ops))
]

-- What a round's patch tells, if there is one.
abbrev pub option_deletes : Option Patch → ℕ
option_deletes none = 0
option_deletes (some p) = action_deletes p.action

abbrev pub option_text : Option Patch → Str
option_text none = []
option_text (some p) = action_text p.action

abbrev pub Tells : List Op → Option Patch × List Op → Type 0
Tells ops (p, rest) = Splits ops (option_deletes p) (option_text p) rest

pub delete_patch-Tells :
    (obj : ObjId) (i n : ℕ) (ops rest : List Op)
    → Splits ops n [] rest
    → Tells ops (delete_patch obj i n rest)
unfolding delete_patch
delete_patch-Tells obj i n ops rest a = elim (Bool-cases (splice_follows obj rest)) [
  | inl h ↦ rw h (Splits-recount (omega arith) (Splits-then a (span_text-Splits obj rest)))
  | inr h ↦ rw h a
]

pub delete_patch-shorter :
    (obj : ObjId) (i n : ℕ) (rest : List Op) → length (delete_patch obj i n rest).1 ≤ length rest
unfolding delete_patch
delete_patch-shorter obj i n rest = elim (Bool-cases (splice_follows obj rest)) [
  | inl h ↦ rw h (span_text-Splits obj rest).shorter
  | inr h ↦ rw h (omega arith)
]
