-- ===== src/DocState/ActorTable/Complete.antt =====
-- The actor table names every actor of the history, and keeps the indices that it gave.
use automerge_cpp.Prelude.{
  ℕ, zero, suc, ◌≡◌, refl, sym, ap, ◌∙◌, arith, if◌then◌else◌, drop, take, All, Bool-cases, inl,
  inr,
}
use automerge_cpp.Prelude.{true, Option, none, some, List, [], ◌∷◌, ◌++◌, append_assoc, append-nil}
use automerge_cpp.Types.{ActorId, OpId, ObjId, root, op, Op, Change, actor_ord}
use automerge_cpp.DocState.{DocState}
use automerge_cpp.DocState.ActorTable.{
  ActorTable, member, add_actor, add_obj, add_insert_after, add_preds, add_op, add_ops, add_changes,
  ensure_actor_table,
}

abbrev pub Knows : List ActorId → ActorId → Type 0
Knows table a = member a table ≡ true

-- The table has more entries behind those that it had.
abbrev pub Extends : List ActorId → List ActorId → Type 0
Extends table table' = (more : List ActorId) × (table' ≡ table ++ more)

Extends-refl : (t : List ActorId) → Extends t t
Extends-refl t = ([], sym (append-nil t))

Extends-trans : (t u v : List ActorId) → Extends t u → Extends u v → Extends t v
Extends-trans t u v (more, h) (others, k) =
    (more ++ others, k ∙ ap (λ (x : List ActorId). x ++ others) h ∙ append_assoc t more others)

member-append :
    (a : ActorId) (t more : List ActorId) → member a t ≡ true → member a (t ++ more) ≡ true
member-append a [] more h = cc
member-append a (b ∷ t) more h = ground (arith, h, member-append a t more)

Knows-Extends : (a : ActorId) (t u : List ActorId) → Extends t u → Knows t a → Knows u a
Knows-Extends a t u (more, h) known = rw h (member-append a t more known)

member-snoc : (a : ActorId) (t : List ActorId) → member a (t ++ (a ∷ [])) ≡ true
member-snoc a [] = ground (arith, actor_ord.cmp_refl a)
member-snoc a (b ∷ t) = ground (arith, member-snoc a t)

-- A step extends the table.
abbrev Grows : (List ActorId → List ActorId) → Type 0
Grows f = (t : List ActorId) → Extends t (f t)

Grows-then : (f g : List ActorId → List ActorId) → Grows f → Grows g → Grows (λ t. g (f t))
Grows-then f g h k t = Extends-trans t (f t) (g (f t)) (h t) (k (f t))

add_actor-Grows : (a : ActorId) → Grows (add_actor a)
unfolding add_actor
add_actor-Grows a t = elim (Bool-cases (member a t)) [
  | inl known ↦ rw known (Extends-refl t)
  | inr new ↦ rw new (a ∷ [], refl)
]

add_actor-Knows : (a : ActorId) (t : List ActorId) → Knows (add_actor a t) a
unfolding add_actor
add_actor-Knows a t = elim (Bool-cases (member a t)) [
  | inl known ↦ rw known known
  | inr new ↦ rw new (member-snoc a t)
]

abbrev pub KnowsObj : List ActorId → ObjId → Type 0
KnowsObj t root = Unit
KnowsObj t (op id) = Knows t id.actor

abbrev pub KnowsAfter : List ActorId → Option OpId → Type 0
KnowsAfter t none = Unit
KnowsAfter t (some id) = Knows t id.actor

abbrev pub KnowsOp : List ActorId → Op → Type 0
KnowsOp t o =
    Knows t (o.id).actor
    × (KnowsObj t o.obj
        × (KnowsAfter t o.insert_after × All (λ (p : OpId). Knows t p.actor) o.pred))

-- The table has the author of a change and the actors that its operations name.
abbrev pub KnowsChange : List ActorId → Change → Type 0
KnowsChange t c = Knows t c.actor × All (KnowsOp t) c.operations

add_obj-Grows : (id : ObjId) → Grows (add_obj id)
add_obj-Grows root = Extends-refl
add_obj-Grows (op id) = add_actor-Grows id.actor

add_insert_after-Grows : (id : Option OpId) → Grows (add_insert_after id)
add_insert_after-Grows none = Extends-refl
add_insert_after-Grows (some id) = add_actor-Grows id.actor

add_preds-Grows : (ps : List OpId) → Grows (add_preds ps)
unfolding add_preds
add_preds-Grows [] = Extends-refl
add_preds-Grows (p ∷ ps) =
    Grows-then (add_actor p.actor) (add_preds ps) (add_actor-Grows p.actor) (add_preds-Grows ps)

add_op-Grows : (o : Op) → Grows (add_op o)
unfolding add_op
add_op-Grows o = Grows-then (add_actor (o.id).actor) _ (add_actor-Grows (o.id).actor) (
    Grows-then (add_obj o.obj) _ (add_obj-Grows o.obj) (
      Grows-then (add_insert_after o.insert_after) (add_preds o.pred)
        (add_insert_after-Grows o.insert_after) (add_preds-Grows o.pred)))

add_ops-Grows : (os : List Op) → Grows (add_ops os)
unfolding add_ops
add_ops-Grows [] = Extends-refl
add_ops-Grows (o ∷ os) = Grows-then (add_op o) (add_ops os) (add_op-Grows o) (add_ops-Grows os)

add_changes-Grows : (cs : List Change) → Grows (add_changes cs)
unfolding add_changes
add_changes-Grows [] = Extends-refl
add_changes-Grows (c ∷ cs) =
    Grows-then (λ t. add_ops c.operations (add_actor c.actor t)) (add_changes cs)
      (Grows-then (add_actor c.actor) (add_ops c.operations) (add_actor-Grows c.actor)
        (add_ops-Grows c.operations))
      (add_changes-Grows cs)

module _ (t u : List ActorId) (more : Extends t u) where
  KnowsPreds-Extends :
      (ps : List OpId)
      → All (λ (p : OpId). Knows t p.actor) ps
      → All (λ (p : OpId). Knows u p.actor) ps
  KnowsPreds-Extends [] h = tt
  KnowsPreds-Extends (p ∷ ps) h = (Knows-Extends p.actor t u more h.0, KnowsPreds-Extends ps h.1)

  KnowsObj-Extends : (id : ObjId) → KnowsObj t id → KnowsObj u id
  KnowsObj-Extends root h = tt
  KnowsObj-Extends (op id) h = Knows-Extends id.actor t u more h

  KnowsAfter-Extends : (id : Option OpId) → KnowsAfter t id → KnowsAfter u id
  KnowsAfter-Extends none h = tt
  KnowsAfter-Extends (some id) h = Knows-Extends id.actor t u more h

  KnowsOp-Extends : (o : Op) → KnowsOp t o → KnowsOp u o
  KnowsOp-Extends o (own, (obj, (after, preds))) = (
    Knows-Extends (o.id).actor t u more own,
    (
      KnowsObj-Extends o.obj obj,
      (KnowsAfter-Extends o.insert_after after, KnowsPreds-Extends o.pred preds),
    ),
  )

  KnowsOps-Extends : (os : List Op) → All (KnowsOp t) os → All (KnowsOp u) os
  KnowsOps-Extends [] h = tt
  KnowsOps-Extends (o ∷ os) h = (KnowsOp-Extends o h.0, KnowsOps-Extends os h.1)

  KnowsChange-Extends : (c : Change) → KnowsChange t c → KnowsChange u c
  KnowsChange-Extends c h = (Knows-Extends c.actor t u more h.0, KnowsOps-Extends c.operations h.1)

  KnowsChanges-Extends : (cs : List Change) → All (KnowsChange t) cs → All (KnowsChange u) cs
  KnowsChanges-Extends [] h = tt
  KnowsChanges-Extends (c ∷ cs) h = (KnowsChange-Extends c h.0, KnowsChanges-Extends cs h.1)

add_preds-Knows :
    (ps : List OpId) (t : List ActorId) → All (λ (p : OpId). Knows (add_preds ps t) p.actor) ps
unfolding add_preds
add_preds-Knows [] t = tt
add_preds-Knows (p ∷ ps) t =
    let u = add_actor p.actor t in
    (
      Knows-Extends p.actor u (add_preds ps u) (add_preds-Grows ps u) (add_actor-Knows p.actor t),
      add_preds-Knows ps u,
    )

add_obj-Knows : (id : ObjId) (t : List ActorId) → KnowsObj (add_obj id t) id
add_obj-Knows root t = tt
add_obj-Knows (op id) t = add_actor-Knows id.actor t

add_insert_after-Knows :
    (id : Option OpId) (t : List ActorId) → KnowsAfter (add_insert_after id t) id
add_insert_after-Knows none t = tt
add_insert_after-Knows (some id) t = add_actor-Knows id.actor t

add_op-Knows : (o : Op) (t : List ActorId) → KnowsOp (add_op o t) o
unfolding add_op
add_op-Knows o t =
    let own = add_actor (o.id).actor t in
    let obj = add_obj o.obj own in
    let after = add_insert_after o.insert_after obj in
    let last = add_preds o.pred after in
    let third = add_preds-Grows o.pred after in
    let second = Extends-trans obj after last (add_insert_after-Grows o.insert_after obj) third in
    let first = Extends-trans own obj last (add_obj-Grows o.obj own) second in
    (
      Knows-Extends (o.id).actor own last first (add_actor-Knows (o.id).actor t),
      (
        KnowsObj-Extends obj last second o.obj (add_obj-Knows o.obj own),
        (
          KnowsAfter-Extends after last third o.insert_after
              (add_insert_after-Knows o.insert_after obj),
          add_preds-Knows o.pred after,
        ),
      ),
    )

add_ops-Knows : (os : List Op) (t : List ActorId) → All (KnowsOp (add_ops os t)) os
unfolding add_ops
add_ops-Knows [] t = tt
add_ops-Knows (o ∷ os) t =
    let u = add_op o t in
    (KnowsOp-Extends u (add_ops os u) (add_ops-Grows os u) o (add_op-Knows o t), add_ops-Knows os u)

add_changes-Knows : (cs : List Change) (t : List ActorId) → All (KnowsChange (add_changes cs t)) cs
unfolding add_changes
add_changes-Knows [] t = tt
add_changes-Knows (c ∷ cs) t =
    let own = add_actor c.actor t in
    let u = add_ops c.operations own in
    let v = add_changes cs u in
    (
      KnowsChange-Extends u v (add_changes-Grows cs u) c (
        Knows-Extends c.actor own u (add_ops-Grows c.operations own) (add_actor-Knows c.actor t),
        add_ops-Knows c.operations own,
      ),
      add_changes-Knows cs u,
    )

All-take-drop :
    {A : Type 0} (P : A → Type 0) (n : ℕ) (xs : List A)
    → All P (take n xs)
    → All P (drop n xs)
    → All P xs
All-take-drop P zero xs h k = k
All-take-drop P (suc n) [] h k = tt
All-take-drop P (suc n) (x ∷ xs) h k = (h.0, All-take-drop P n xs h.1 k)

-- The local actor is in a table that says so.
abbrev pub HasLocal : DocState → ActorTable → Type 0
HasLocal s cache = cache.has_local ≡ true → Knows cache.table s.actor

abbrev with_local : DocState → ActorTable → List ActorId
with_local s cache = if cache.has_local then cache.table else add_actor s.actor cache.table

with_local-Knows :
    (s : DocState) (cache : ActorTable) → HasLocal s cache → Knows (with_local s cache) s.actor
with_local-Knows s cache h = elim (Bool-cases cache.has_local) [
  | inl there ↦ rw there (h there)
  | inr missing ↦ rw missing (add_actor-Knows s.actor cache.table)
]

with_local-Extends : (s : DocState) (cache : ActorTable) → Extends cache.table (with_local s cache)
with_local-Extends s cache = elim (Bool-cases cache.has_local) [
  | inl there ↦ rw there (Extends-refl cache.table)
  | inr missing ↦ rw missing (add_actor-Grows s.actor cache.table)
]

-- For a cache that has the actors of the changes that it has counted, and the local actor where it
-- says so, the actor table has the local actor, the author of each change of the history and each
-- actor that an operation of a change names, and it has them behind the entries of the cache.
pub ensure_actor_table-Knows :
    (s : DocState) (cache : ActorTable)
    → All (KnowsChange cache.table) (take cache.size s.change_history)
    → HasLocal s cache
    → Knows (ensure_actor_table s cache).table s.actor
      × (All (KnowsChange (ensure_actor_table s cache).table) s.change_history
          × Extends cache.table (ensure_actor_table s cache).table)
unfolding ensure_actor_table
ensure_actor_table-Knows s cache counted has =
    let t = with_local s cache in
    let new = drop cache.size s.change_history in
    let u = add_changes new t in
    let more = add_changes-Grows new t in
    let all = Extends-trans cache.table t u (with_local-Extends s cache) more in
    (
      Knows-Extends s.actor t u more (with_local-Knows s cache has),
      (
        All-take-drop (KnowsChange u) cache.size s.change_history
            (KnowsChanges-Extends cache.table u all (take cache.size s.change_history) counted)
            (add_changes-Knows new t),
        all,
      ),
    )
