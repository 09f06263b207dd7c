-- ===== src/DocState/ActorTable.antt =====
-- The cached actor table of src/doc_state.hpp: the actors that a history names, in the order in which
-- they are met. `cached_actor_set_` holds the entries of the table.
pub mod Complete
use automerge_cpp.Prelude.{
  ℕ, zero, suc, ◌≡◌, refl, arith, if◌then◌else◌, length, drop, All, ◌⊎◌, inl, inr, Bool-cases,
}
use automerge_cpp.Prelude.{Bool, true, false, ◌||◌, Option, none, some, List, [], ◌∷◌, ◌++◌}
use automerge_cpp.Prelude.Order.{Ord, eqb}
use automerge_cpp.Types.{ActorId, OpId, ObjId, root, op, Op, Change, actor_ord}
use automerge_cpp.DocState.{DocState}

abbrev pub member : ActorId → List ActorId → Bool
member a [] = false
member a (b ∷ table) = eqb a b || member a table

-- `if (cached_actor_set_.insert(a).second) cached_actor_table_.push_back(a);`
unfoldable pub add_actor : ActorId → List ActorId → List ActorId
add_actor a table = if member a table then table else table ++ (a ∷ [])

abbrev add_obj : ObjId → List ActorId → List ActorId
add_obj root table = table
add_obj (op id) table = add_actor id.actor table

abbrev add_insert_after : Option OpId → List ActorId → List ActorId
add_insert_after none table = table
add_insert_after (some id) table = add_actor id.actor table

unfoldable pub add_preds : List OpId → List ActorId → List ActorId
add_preds [] table = table
add_preds (p ∷ pred) table = add_preds pred (add_actor p.actor table)

unfoldable pub add_op : Op → List ActorId → List ActorId
add_op o table =
    add_preds o.pred
      (add_insert_after o.insert_after (add_obj o.obj (add_actor (o.id).actor table)))

unfoldable pub add_ops : List Op → List ActorId → List ActorId
add_ops [] table = table
add_ops (o ∷ ops) table = add_ops ops (add_op o table)

unfoldable pub add_changes : List Change → List ActorId → List ActorId
add_changes [] table = table
add_changes (c ∷ changes) table =
    add_changes changes (add_ops c.operations (add_actor c.actor table))

-- `cached_actor_table_`, `cached_actor_table_size_` and `cached_actor_table_has_local_`.
pub record ActorTable : Type 0 where
  pub table : List ActorId
  pub size : ℕ
  pub has_local : Bool

abbrev pub no_table : ActorTable
no_table = record { table = []; size = 0; has_local = false }

unfoldable pub ensure_actor_table : DocState → ActorTable → ActorTable
ensure_actor_table s cache = record {
  table =
      add_changes (drop cache.size s.change_history)
        (if cache.has_local then cache.table else add_actor s.actor cache.table);
  size = length s.change_history;
  has_local = true;
}

abbrev pub actor_table : DocState → ActorTable → List ActorId
actor_table s cache = (ensure_actor_table s cache).table
