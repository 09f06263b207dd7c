-- ===== src/Document/Patches/Rounds.antt =====
-- The rounds of `ops_to_patches`, and what its patches tell.
use automerge_cpp.Prelude.{ℕ, zero, suc, ◌+◌, ◌≤◌, ◌≡◌, refl, sym, ap, ◌∙◌, subst, arith, length}
use automerge_cpp.Prelude.{true, false, Option, none, some, List, [], ◌∷◌, ◌++◌}
use automerge_cpp.Prelude.Order.{eqb_refl}
use automerge_cpp.Types.{Prop, OpType, Op, ScalarValue, Value, object, scalar, Str, obj_id_ord}
use automerge_cpp.Document.Patches.{
  PatchAction, Patch, is_del, is_splice, span_deletes, span_text, list_patch, single,
  increment_patch, delete_patch, next_patch, patch_by, cons_patch, patch_loop, ops_to_patches,
}
use automerge_cpp.Document.Patches.Contents.{
  IsKeyed, AllKeyed, deletes, text_spliced, patch_deletes, patch_text, Splits, Splits-then,
  Splits-delete, Splits-other, Splits-recount, span_deletes-Splits, span_text-Splits,
  option_deletes, option_text, Tells, delete_patch-Tells, delete_patch-shorter,
}

-- A round ends with a patch, or none, that tells of the operations that it took, the first at least.
record Round (o : Op) (ops : List Op) (r : Option (Option Patch × List Op)) : Type 0 where
  patch : Option Patch
  rest : List Op
  result : r ≡ some (patch, rest)
  tells : Tells (o ∷ ops) (patch, rest)
  taken : length rest ≤ length ops

Round_single :
    (o : Op) (ops : List Op) (p : Option Patch)
    → Tells (o ∷ ops) (p, ops)
    → Round o ops (some (p, ops))
Round_single o ops p t = record {
  patch = p;
  rest = ops;
  result = refl;
  tells = t;
  taken = omega arith;
}

Round_delete :
    (o : Op) (ops : List Op) (i : ℕ)
    → o.action ≡ OpType.del
    → Round o ops (patch_by OpType.del (Prop.index i) o ops)
Round_delete o ops i act =
    let n = (span_deletes o.obj i ops).0 in
    let rest = (span_deletes o.obj i ops).1 in
    let others = span_deletes-Splits o.obj i ops in
    let all : Splits (o ∷ ops) (suc n) [] rest =
      Splits-recount (omega arith) (Splits-then (Splits-delete o ops (ap is_del act)) others) in
    record {
      patch = (delete_patch o.obj i (suc n) rest).0;
      rest = (delete_patch o.obj i (suc n) rest).1;
      result = refl;
      tells = delete_patch-Tells o.obj i (suc n) (o ∷ ops) rest all;
      taken = omega (arith, delete_patch-shorter o.obj i (suc n) rest, others.shorter);
    }

span_text-first :
    (o : Op) (ops : List Op)
    → is_splice o.action ≡ true
    → (span_text o.obj (o ∷ ops)).1 ≡ (span_text o.obj ops).1
unfolding span_text
span_text-first o ops h = rw (h, eqb_refl o.obj) refl

Round_splice :
    (o : Op) (ops : List Op) (i : ℕ)
    → o.action ≡ OpType.splice_text
    → Round o ops (patch_by OpType.splice_text (Prop.index i) o ops)
Round_splice o ops i act = record {
  patch = list_patch o.obj i (PatchAction.splice_text i 0 (span_text o.obj (o ∷ ops)).0);
  rest = (span_text o.obj (o ∷ ops)).1;
  result = refl;
  tells = span_text-Splits o.obj (o ∷ ops);
  taken = omega (
    arith,
    ap length (span_text-first o ops (ap is_splice act)),
    (span_text-Splits o.obj ops).shorter,
  );
}

option_increment :
    (o : Op) (v : Value)
    → (option_deletes (increment_patch o v) ≡ 0) × (option_text (increment_patch o v) ≡ [])
option_increment o (object t) = (refl, refl)
option_increment o (scalar ScalarValue.null) = (refl, refl)
option_increment o (scalar (ScalarValue.bool b)) = (refl, refl)
option_increment o (scalar (ScalarValue.int n)) = (refl, refl)
option_increment o (scalar (ScalarValue.uint n)) = (refl, refl)
option_increment o (scalar (ScalarValue.double n)) = (refl, refl)
option_increment o (scalar (ScalarValue.counter n)) = (refl, refl)
option_increment o (scalar (ScalarValue.timestamp n)) = (refl, refl)
option_increment o (scalar (ScalarValue.string t)) = (refl, refl)
option_increment o (scalar (ScalarValue.bytes b)) = (refl, refl)

Tells-increment :
    (o : Op) (ops : List Op) (v : Value)
    → Splits (o ∷ ops) 0 [] ops
    → Tells (o ∷ ops) (increment_patch o v, ops)
Tells-increment o ops v a =
    let same = option_increment o v in
    subst (λ (t : Str). Splits (o ∷ ops) (option_deletes (increment_patch o v)) t ops) (sym same.1)
      (Splits-recount (sym same.0) a)

round :
    (a : OpType) (k : Prop) (o : Op) (ops : List Op)
    → o.action ≡ a
    → IsKeyed a k
    → Round o ops (patch_by a k o ops)
round OpType.del (Prop.index i) o ops act keyed = Round_delete o ops i act
round OpType.del (Prop.key k) o ops act keyed =
    Round_single o ops (single o (PatchAction.delete 0 1)) (Splits-delete o ops (ap is_del act))
round OpType.splice_text (Prop.index i) o ops act keyed = Round_splice o ops i act
round OpType.splice_text (Prop.key k) o ops act keyed = absurd keyed
round OpType.put k o ops act keyed =
    Round_single o ops (single o (PatchAction.put o.value false))
      (Splits-other o ops (ap is_del act) (ap is_splice act))
round OpType.make_object k o ops act keyed =
    Round_single o ops (single o (PatchAction.put o.value false))
      (Splits-other o ops (ap is_del act) (ap is_splice act))
round OpType.insert (Prop.index i) o ops act keyed =
    Round_single o ops (single o (PatchAction.insert i o.value))
      (Splits-other o ops (ap is_del act) (ap is_splice act))
round OpType.insert (Prop.key k) o ops act keyed = absurd keyed
round OpType.increment k o ops act keyed =
    Round_single o ops (increment_patch o o.value)
      (Tells-increment o ops o.value (Splits-other o ops (ap is_del act) (ap is_splice act)))
round OpType.mark k o ops act keyed =
    Round_single o ops none (Splits-other o ops (ap is_del act) (ap is_splice act))

patch_deletes-cons :
    (p : Option Patch) (ps : List Patch)
    → patch_deletes (cons_patch p ps) ≡ option_deletes p + patch_deletes ps
unfolding patch_deletes
patch_deletes-cons none ps = omega arith
patch_deletes-cons (some p) ps = refl

patch_text-cons :
    (p : Option Patch) (ps : List Patch)
    → patch_text (cons_patch p ps) ≡ option_text p ++ patch_text ps
unfolding patch_text
patch_text-cons none ps = refl
patch_text-cons (some p) ps = refl

-- The patches of some operations tell of all their deletes and of all their text.
abbrev pub IsComplete : List Op → List Patch → Type 0
IsComplete ops patches =
    (patch_deletes patches ≡ deletes ops) × (patch_text patches ≡ text_spliced ops)

patch_loop-round :
    (fuel : ℕ) (o : Op) (ops : List Op) {p : Option Patch} {rest : List Op} {patches : List Patch}
    → next_patch o ops ≡ some (p, rest)
    → patch_loop fuel rest ≡ some patches
    → patch_loop (suc fuel) (o ∷ ops) ≡ some (cons_patch p patches)
unfolding patch_loop
patch_loop-round fuel o ops step done = rw (patch_loop, step, done) refl

round-next : (o : Op) (ops : List Op) → IsKeyed o.action o.key → Round o ops (next_patch o ops)
unfolding next_patch
round-next o ops keyed = round o.action o.key o ops refl keyed

patch_loop-IsComplete :
    (fuel : ℕ) (ops : List Op)
    → length ops ≤ fuel
    → AllKeyed ops
    → (patches : List Patch) × (patch_loop fuel ops ≡ some patches) × IsComplete ops patches
unfolding patch_loop patch_deletes patch_text deletes text_spliced
patch_loop-IsComplete zero [] h keyed = ([], refl, (refl, refl))
patch_loop-IsComplete zero (o ∷ ops) h keyed = absurd (omega arith)
patch_loop-IsComplete (suc fuel) [] h keyed = ([], refl, (refl, refl))
patch_loop-IsComplete (suc fuel) (o ∷ ops) h keyed =
    let r = round-next o ops keyed.0 in
    let (patches, done, (counted, texted)) =
      patch_loop-IsComplete fuel r.rest (omega (arith, r.taken)) (r.tells.keyed keyed) in
    (
      cons_patch r.patch patches,
      patch_loop-round fuel o ops r.result done,
      (
        omega (arith, patch_deletes-cons r.patch patches, counted, r.tells.counted),
        patch_text-cons r.patch patches
            ∙ ap (◌++◌ (option_text r.patch)) texted
            ∙ sym r.tells.texted,
      ),
    )

-- Of operations whose inserts and splices are at indices, the patches are made, and they tell of as
-- many deletes as there are, and of the text of all splices in its order.
pub ops_to_patches-IsComplete :
    (ops : List Op)
    → AllKeyed ops
    → (patches : List Patch) × (ops_to_patches ops ≡ some patches) × IsComplete ops patches
unfolding ops_to_patches
ops_to_patches-IsComplete ops keyed = patch_loop-IsComplete (length ops) ops (omega arith) keyed
