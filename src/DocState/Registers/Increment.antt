-- ===== src/DocState/Registers/Increment.antt =====
-- `counter_increment` at a key with a conflict, against `apply_op` of the same increment elsewhere.
use automerge_cpp.Prelude.{
  ℕ, ◌^◌, ◌<◌, ◌≡◌, ◌≢◌, refl, sym, ap, ◌∙◌, arith, map, Option-cases, inl, inr,
}
use automerge_cpp.Prelude.{some, List, [], ◌∷◌}
use automerge_cpp.Prelude.Order.{eqb_refl, bytes_ord, compare_bytes_refl}
use automerge_cpp.Types.{
  ObjId, Op, OpType, Str, Prop, obj_id_ord, scalar, counter, compare_obj_id_refl,
}
use automerge_cpp.OrdMap.{find, find-assign}
use automerge_cpp.DocState.{MapEntry, ObjectState, DocState, get_object, set_object}
use automerge_cpp.DocState.MapOps.{or_empty, counter_increment, increment_last, expect_object}
use automerge_cpp.DocState.Apply.{apply_op, increment_entry, increment_entries}
use automerge_cpp.DocState.Registers.{conflicts, key_step, conflicts-apply_op}
use automerge_cpp.DocState.Registers.Counters.{increment_entry-ne}

first_or : MapEntry → List MapEntry → MapEntry
first_or d [] = d
first_or d (e ∷ es) = e

increment_last-first :
    (d : ℕ) (e f : MapEntry) (es : List MapEntry) {out : List MapEntry}
    → increment_last d (e ∷ f ∷ es) ≡ some out
    → first_or e out ≡ e
unfolding increment_last first_or
increment_last-first d e f es h = elim (Option-cases (increment_last d (f ∷ es))) [
  | inl p ↦ absurd (ground (arith, p))
  | inr (rest, p) ↦ ground (arith, p)
]

conflicts-counter_increment :
    (obj : ObjId) (k : Str) (d : ℕ) (s : DocState) {st : ObjectState} {s' : DocState}
    → get_object obj s ≡ some st
    → counter_increment obj k d s ≡ some s'
    → increment_last d (conflicts obj k s) ≡ some (conflicts obj k s')
unfolding counter_increment expect_object set_object get_object conflicts
conflicts-counter_increment obj k d s {st} here h =
    elim (Option-cases (increment_last d (or_empty (find k st.map_entries)))) [
      | inl p ↦ absurd (ground (arith, p))
      | inr (rest, p) ↦
          ground (arith, p, eqb_refl obj, eqb_refl k, find-assign k k rest st.map_entries)
    ]

-- The increment of a counter at a key with more than one entry, where the first of them holds a
-- counter, by a number that is not 0 modulo 2 ^ 64: a replica in the same state that applies an
-- increment operation of that number has other entries than the document that was changed.
pub increment-replay_diverges :
    (o : Op) (s : DocState) {s' : DocState} {st : ObjectState} (k : Str) (n d : ℕ) (e f : MapEntry)
    (es : List MapEntry)
    → o.action ≡ OpType.increment
    → o.key ≡ Prop.key k
    → o.value ≡ scalar (counter d)
    → get_object o.obj s ≡ some st
    → conflicts o.obj k s ≡ e ∷ f ∷ es
    → e.value ≡ scalar (counter n)
    → n < 2 ^ 64
    → 0 < d
    → d < 2 ^ 64
    → counter_increment o.obj k d s ≡ some s'
    → conflicts o.obj k s' ≢ conflicts o.obj k (apply_op o s)
unfolding first_or
increment-replay_diverges o s {s'} {st} k n d e f es act at val here two counts hn hd hd' local q =
    increment_entry-ne e n d counts hn hd hd' (sym (ap (first_or e) (q ∙ remote)) ∙ kept)
  where
    remote : conflicts o.obj k (apply_op o s) ≡ map (increment_entry d) (e ∷ f ∷ es)
    remote =
        unfold key_step increment_entries in
        simp
          (
            conflicts-apply_op o o.obj k s here,
            act,
            at,
            val,
            two,
            compare_obj_id_refl,
            compare_bytes_refl,
          )
          refl

    kept : first_or e (conflicts o.obj k s') ≡ e
    kept =
        increment_last-first d e f es
          (ap (increment_last d) (sym two) ∙ conflicts-counter_increment o.obj k d s here local)
