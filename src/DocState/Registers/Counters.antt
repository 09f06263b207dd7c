-- ===== src/DocState/Registers/Counters.antt =====
-- Increments of counters against each other and against concurrent writes.
use automerge_cpp.Prelude.{ℕ, ◌^◌, ◌<◌, ◌≡◌, ◌≢◌, refl, sym, ap, ◌∙◌, arith, if◌then◌else◌, map}
use automerge_cpp.Prelude.{Bool, true, false, some, List, [], ◌∷◌, ◌++◌}
use automerge_cpp.Prelude.Order.{bytes_ord}
use automerge_cpp.Types.{compare_obj_id_refl}
use automerge_cpp.Prelude.Order.{compare_bytes_refl}
use automerge_cpp.Types.{
  ObjId, Op, OpType, Str, Value, Prop, op_id_ord, obj_id_ord, add_i64, scalar, counter,
}
use automerge_cpp.DocState.{MapEntry, ObjectState, DocState, get_object}
use automerge_cpp.DocState.Apply.{without_pred, apply_op, increment_entry, increment_entries}
use automerge_cpp.DocState.Registers.{conflicts, entry, key_step, targets, conflicts-apply_two}

add_counter_comm :
    (c d : ℕ) (e : MapEntry)
    → increment_entry c (increment_entry d e) ≡ increment_entry d (increment_entry c e)
unfolding increment_entry
add_counter_comm c d e = ground arith

map-increments_comm :
    (c d : ℕ) (es : List MapEntry)
    → map (increment_entry c) (map (increment_entry d) es)
      ≡ map (increment_entry d) (map (increment_entry c) es)
map-increments_comm c d [] = refl
map-increments_comm c d (e ∷ es) = cc (add_counter_comm c d e, map-increments_comm c d es)

increment_entries_comm :
    (v w : Value) (es : List MapEntry)
    → increment_entries v (increment_entries w es) ≡ increment_entries w (increment_entries v es)
unfolding increment_entries
increment_entries_comm (scalar (counter c)) (scalar (counter d)) es = map-increments_comm c d es
increment_entries_comm _ _ es = refl

branches_comm :
    (p q : Bool) (f g : List MapEntry → List MapEntry) (es : List MapEntry)
    → g (f es) ≡ f (g es)
    → (let fs = if p then f es else es in if q then g fs else fs)
      ≡ (let gs = if q then g es else es in if p then f gs else gs)
branches_comm true true f g es h = h
branches_comm true false f g es h = refl
branches_comm false true f g es h = refl
branches_comm false false f g es h = refl

-- Two increments of counters in objects that are there give the same entries at every key of every
-- object in either order.
pub increments_commute :
    (a b : Op) (s : DocState) {sa sb : ObjectState}
    → a.action ≡ OpType.increment
    → b.action ≡ OpType.increment
    → get_object a.obj s ≡ some sa
    → get_object b.obj s ≡ some sb
    → (obj : ObjId) (j : Str)
    → conflicts obj j (apply_op b (apply_op a s)) ≡ conflicts obj j (apply_op a (apply_op b s))
increments_commute a b s wa wb pa pb obj j =
    simp (conflicts-apply_two a b s pa pb obj j, conflicts-apply_two b a s pb pa obj j, wa, wb)
      (branches_comm (targets a obj j) (targets b obj j) (key_step OpType.increment a)
        (key_step OpType.increment b) (conflicts obj j s)
        (unfold key_step in increment_entries_comm b.value a.value (conflicts obj j s)))

last_or : MapEntry → List MapEntry → MapEntry
last_or d [] = d
last_or d (e ∷ es) = last_or e es

last_or-append : (d x : MapEntry) (es : List MapEntry) → last_or d (es ++ (x ∷ [])) ≡ x
unfolding last_or
last_or-append d x [] = refl
last_or-append d x (e ∷ es) = last_or-append e x es

map-last :
    (f : MapEntry → MapEntry) (d x : MapEntry) (es : List MapEntry)
    → last_or d (map f (es ++ (x ∷ []))) ≡ f x
unfolding last_or
map-last f d x [] = refl
map-last f d x (e ∷ es) = map-last f (f e) x es

value-increment_entry :
    (e : MapEntry) (n d : ℕ)
    → e.value ≡ scalar (counter n)
    → (increment_entry d e).value ≡ scalar (counter (add_i64 n d))
unfolding increment_entry
value-increment_entry e n d h = ground arith

add_i64-ne : (n d : ℕ) → n < 2 ^ 64 → 0 < d → d < 2 ^ 64 → add_i64 n d ≢ n
unfolding add_i64
add_i64-ne n d hn hd hd' e = omega arith

pub increment_entry-ne :
    (e : MapEntry) (n d : ℕ)
    → e.value ≡ scalar (counter n)
    → n < 2 ^ 64
    → 0 < d
    → d < 2 ^ 64
    → increment_entry d e ≢ e
increment_entry-ne e n d h hn hd hd' p =
    add_i64-ne n d hn hd hd'
      (cc (value-increment_entry e n d h, h, ap (λ (x : MapEntry). x.value) p))

-- An increment that comes after a put reaches its entry, one that comes before does not.
reached_differs :
    (x : MapEntry) (n d : ℕ) (es fs : List MapEntry)
    → x.value ≡ scalar (counter n)
    → n < 2 ^ 64
    → 0 < d
    → d < 2 ^ 64
    → map (increment_entry d) (es ++ (x ∷ [])) ≢ fs ++ (x ∷ [])
reached_differs x n d es fs h hn hd hd' e =
    increment_entry-ne x n d h hn hd hd'
      (sym (map-last (increment_entry d) x x es) ∙ ap (last_or x) e ∙ last_or-append x x fs)

-- A put of a counter and a concurrent increment of the same key by a number that is not 0 modulo
-- 2 ^ 64 leave different entries in the two orders: the increment also reaches the new counter.
pub put-increment_diverges :
    (a b : Op) (s : DocState) {st : ObjectState} (k : Str) (n d : ℕ)
    → a.action ≡ OpType.put
    → a.key ≡ Prop.key k
    → a.value ≡ scalar (counter n)
    → b.action ≡ OpType.increment
    → b.key ≡ Prop.key k
    → b.obj ≡ a.obj
    → b.value ≡ scalar (counter d)
    → get_object a.obj s ≡ some st
    → n < 2 ^ 64
    → 0 < d
    → d < 2 ^ 64
    → conflicts a.obj k (apply_op b (apply_op a s)) ≢ conflicts a.obj k (apply_op a (apply_op b s))
put-increment_diverges a b s {st} k n d ha ka va hb kb ob vb pa hn hd hd' e =
    reached_differs (entry a) n d (without_pred a.pred (conflicts a.obj k s))
      (without_pred a.pred (map (increment_entry d) (conflicts a.obj k s))) (unfold entry in va) hn
      hd hd'
      (unfold key_step increment_entries in
        simp
          (
            conflicts-apply_two a b s pa (ob_present) a.obj k,
            conflicts-apply_two b a s ob_present pa a.obj k,
            ha,
            ka,
            hb,
            kb,
            ob,
            vb,
            compare_obj_id_refl,
            compare_bytes_refl,
          )
          at e)
  where
    ob_present : get_object b.obj s ≡ some st
    ob_present = simp ob pa
