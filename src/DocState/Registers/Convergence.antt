-- ===== src/DocState/Registers/Convergence.antt =====
-- Concurrent writes to a map, applied in either order.
use mathlib.Core.List.{Perm}
use mathlib.Core.List.Perm
use automerge_cpp.Prelude.{◌≡◌, ◌≢◌, ◌⊎◌, refl, sym, ap, arith, if◌then◌else◌, map, inl, inr}
use automerge_cpp.Prelude.{
  Bool, true, false, some, List, [], ◌∷◌, ◌++◌, filter-append, append_assoc, append-nil,
}
use automerge_cpp.Prelude.Order.{lessb}
use automerge_cpp.Types.{OpId, ObjId, Op, OpType, Str, op_id_ord}
use automerge_cpp.Types.{compare_op_id-flip, compare_op_id-eq, compare_op_id_trans}
use automerge_cpp.DocState.{MapEntry, ObjectState, DocState, contains, get_object}
use automerge_cpp.DocState.MapOps.{largest, max_element, value_of, map_get, map_get_all}
use automerge_cpp.DocState.Apply.{without_pred, apply_op}
use automerge_cpp.DocState.Registers.{conflicts, entry, key_step, targets, conflicts-apply_two}

without_comm :
    (p q : List OpId) (es : List MapEntry)
    → without_pred p (without_pred q es) ≡ without_pred q (without_pred p es)
unfolding without_pred
without_comm p q [] = refl
without_comm p q (e ∷ es) = ground (arith, without_comm p q es)

without-append :
    (p : List OpId) (es fs : List MapEntry)
    → without_pred p (es ++ fs) ≡ without_pred p es ++ without_pred p fs
unfolding without_pred
without-append p es fs = filter-append _ es fs

without-entry :
    (p : List OpId) (o : Op)
    → contains p o.id ≡ false
    → without_pred p (entry o ∷ []) ≡ entry o ∷ []
unfolding without_pred entry
without-entry p o h = ground arith

-- The winner of a list and two more entries does not depend on the order of the two.
largest-swap :
    (es : List MapEntry) (best a b : MapEntry)
    → a.op_id ≢ b.op_id
    → largest best (es ++ (a ∷ b ∷ [])) ≡ largest best (es ++ (b ∷ a ∷ []))
unfolding largest
largest-swap [] best a b h = ground (
  arith,
  h,
  compare_op_id-flip a.op_id b.op_id,
  compare_op_id-eq a.op_id b.op_id,
  compare_op_id_trans best.op_id a.op_id b.op_id,
  compare_op_id_trans best.op_id b.op_id a.op_id,
)
largest-swap (e ∷ es) best a b h =
    largest-swap es (if lessb best.op_id e.op_id then e else best) a b h

max_element-swap :
    (es : List MapEntry) (a b : MapEntry)
    → a.op_id ≢ b.op_id
    → max_element (es ++ (a ∷ b ∷ [])) ≡ max_element (es ++ (b ∷ a ∷ []))
unfolding max_element
max_element-swap [] a b h =
    ground (arith, h, compare_op_id-flip a.op_id b.op_id, compare_op_id-eq a.op_id b.op_id)
max_element-swap (e ∷ es) a b h = ap some (largest-swap es e a b h)

-- The actions that write a value to a map key or delete one.
abbrev pub IsWrite : OpType → Type 0
IsWrite OpType.put = Unit
IsWrite OpType.make_object = Unit
IsWrite OpType.del = Unit
IsWrite _ = ⊥

-- Neither operation has seen the other.
pub record AreConcurrent (a b : Op) : Type 0 where
  pub apart : a.id ≢ b.id
  pub unseen_a : contains b.pred a.id ≡ false
  pub unseen_b : contains a.pred b.id ≡ false

-- Two lists hold the same entries and have the same winner.
pub record Agree (es fs : List MapEntry) : Type 0 where
  pub same_entries : Perm es fs
  pub same_winner : max_element es ≡ max_element fs

-- What a write leaves behind the entries that it keeps.
wrote : OpType → Op → List MapEntry
unfolding entry
wrote OpType.put o = entry o ∷ []
wrote OpType.make_object o = entry o ∷ []
wrote _ o = []

key_step-wrote :
    (act : OpType) (o : Op) (es : List MapEntry)
    → IsWrite act
    → key_step act o es ≡ without_pred o.pred es ++ wrote act o
unfolding key_step wrote
key_step-wrote OpType.put o es w = refl
key_step-wrote OpType.make_object o es w = refl
key_step-wrote OpType.del o es w = sym (append-nil (without_pred o.pred es))
key_step-wrote OpType.insert o es w = elim w [ ]
key_step-wrote OpType.increment o es w = elim w [ ]
key_step-wrote OpType.splice_text o es w = elim w [ ]
key_step-wrote OpType.mark o es w = elim w [ ]

without-wrote :
    (act : OpType) (p : List OpId) (o : Op)
    → contains p o.id ≡ false
    → without_pred p (wrote act o) ≡ wrote act o
unfolding wrote
without-wrote OpType.put p o h = without-entry p o h
without-wrote OpType.make_object p o h = without-entry p o h
without-wrote OpType.del p o h = unfold without_pred in refl
without-wrote _ p o h = unfold without_pred in refl

two_steps :
    (x y : OpType) (a b : Op) (es : List MapEntry)
    → IsWrite x
    → IsWrite y
    → contains b.pred a.id ≡ false
    → key_step y b (key_step x a es)
      ≡ without_pred b.pred (without_pred a.pred es) ++ (wrote x a ++ wrote y b)
two_steps x y a b es wx wy h =
    rw
      (
        key_step-wrote x a es wx,
        key_step-wrote y b _ wy,
        without-append,
        without-wrote x b.pred a h,
      )
      (append_assoc (without_pred b.pred (without_pred a.pred es)) (wrote x a) (wrote y b))

Agree-refl : (es : List MapEntry) → Agree es es
Agree-refl es = record { same_entries = Perm.refl es; same_winner = refl }

perm-append : (es : List MapEntry) {fs gs : List MapEntry} → Perm fs gs → Perm (es ++ fs) (es ++ gs)
perm-append [] p = p
perm-append (e ∷ es) p = Perm.cons e (perm-append es p)

wrote-cases : (act : OpType) (o : Op) → (wrote act o ≡ []) ⊎ (wrote act o ≡ entry o ∷ [])
unfolding wrote
wrote-cases OpType.put o = inr refl
wrote-cases OpType.make_object o = inr refl
wrote-cases _ o = inl refl

entries-swap :
    (a b : Op) (es : List MapEntry)
    → a.id ≢ b.id
    → Agree (es ++ (entry a ∷ entry b ∷ [])) (es ++ (entry b ∷ entry a ∷ []))
entries-swap a b es h = record {
  same_entries = perm-append es (Perm.swap (entry b) (entry a) []);
  same_winner = max_element-swap es (entry a) (entry b) (unfold entry in h);
}

wrote-swap :
    (x y : OpType) (a b : Op) (es : List MapEntry)
    → a.id ≢ b.id
    → Agree (es ++ (wrote x a ++ wrote y b)) (es ++ (wrote y b ++ wrote x a))
wrote-swap x y a b es h = elim (wrote-cases x a) [
  | inl p ↦ rw (p, append-nil) (Agree-refl (es ++ wrote y b))
  | inr p ↦ elim (wrote-cases y b) [
    | inl q ↦ rw (q, append-nil) (Agree-refl (es ++ wrote x a))
    | inr q ↦ rw (p, q) (entries-swap a b es h)
  ]
]

steps-Agree :
    (x y : OpType) (a b : Op) (es : List MapEntry)
    → IsWrite x
    → IsWrite y
    → AreConcurrent a b
    → Agree (key_step y b (key_step x a es)) (key_step x a (key_step y b es))
steps-Agree x y a b es wx wy c =
    rw (two_steps x y a b es wx wy c.unseen_a, two_steps y x b a es wy wx c.unseen_b)
      (rw (without_comm b.pred a.pred es) (wrote-swap x y a b _ c.apart))

Agree-branches :
    (p q : Bool) (f g : List MapEntry → List MapEntry) (es : List MapEntry)
    → Agree (g (f es)) (f (g es))
    → Agree
        (let fs = if p then f es else es in if q then g fs else fs)
        (let gs = if q then g es else es in if p then f gs else gs)
Agree-branches true true f g es h = h
Agree-branches true false f g es h = Agree-refl (f es)
Agree-branches false true f g es h = Agree-refl (g es)
Agree-branches false false f g es h = Agree-refl es

-- The entries of every key agree, whichever of two concurrent writes comes first.
conflicts_converge :
    (a b : Op) (s : DocState) {sa sb : ObjectState}
    → IsWrite a.action
    → IsWrite b.action
    → AreConcurrent a b
    → get_object a.obj s ≡ some sa
    → get_object b.obj s ≡ some sb
    → (obj : ObjId) (j : Str)
    → Agree
        (conflicts obj j (apply_op b (apply_op a s)))
        (conflicts obj j (apply_op a (apply_op b s)))
conflicts_converge a b s wa wb c pa pb obj j =
    rw (conflicts-apply_two a b s pa pb obj j, conflicts-apply_two b a s pb pa obj j)
      (Agree-branches (targets a obj j) (targets b obj j) (key_step a.action a)
        (key_step b.action b) (conflicts obj j s)
        (steps-Agree a.action b.action a b (conflicts obj j s) wa wb c))

map_get-conflicts :
    (obj : ObjId) (j : Str) (s : DocState)
    → map_get obj j s ≡ value_of (max_element (conflicts obj j s))
unfolding map_get conflicts
map_get-conflicts obj j s = refl

map_get_all-conflicts :
    (obj : ObjId) (j : Str) (s : DocState)
    → map_get_all obj j s ≡ map (λ e. e.value) (conflicts obj j s)
unfolding map_get_all conflicts
map_get_all-conflicts obj j s = refl

-- Two writes to maps (put, creation of a nested object, delete), to objects that are there, neither
-- of which has seen the other, applied in either order: every read of a key of an object returns the
-- same value, and the same conflicting values up to order.
pub reads_converge :
    (a b : Op) (s : DocState) {sa sb : ObjectState}
    → IsWrite a.action
    → IsWrite b.action
    → AreConcurrent a b
    → get_object a.obj s ≡ some sa
    → get_object b.obj s ≡ some sb
    → (obj : ObjId) (j : Str)
    → (map_get obj j (apply_op b (apply_op a s)) ≡ map_get obj j (apply_op a (apply_op b s)))
      × Perm
          (map_get_all obj j (apply_op b (apply_op a s)))
          (map_get_all obj j (apply_op a (apply_op b s)))
reads_converge a b s wa wb c pa pb obj j =
    let agree = conflicts_converge a b s wa wb c pa pb obj j in
    simp (map_get-conflicts, map_get_all-conflicts)
      (ap value_of agree.same_winner, Perm.map (λ e. e.value) agree.same_entries)
