-- ===== src/Document/Frame.antt =====
-- What operations leave alone, and what a change does to the history.
use automerge_cpp.Prelude.{◌≡◌, ap, sym, ◌∙◌, arith, List, [], ◌∷◌, ◌++◌, append-nil, append_assoc}
use automerge_cpp.Types.{Op, Change, ObjId, Value, OpId}
use automerge_cpp.DocState.{DocState, ObjectState, modify_object, create_object, set_object}
use automerge_cpp.DocState.Apply.{apply_op, ensure_nested, advance_counter, apply_action}
use automerge_cpp.DocState.History.{apply_ops}
use automerge_cpp.Document.{apply_change, apply_changes}

-- Operations change the objects and the counter only.
pub record SameHistory (s t : DocState) : Type 0 where
  pub actor : t.actor ≡ s.actor
  pub change_history : t.change_history ≡ s.change_history
  pub heads : t.heads ≡ s.heads
  pub clock : t.clock ≡ s.clock
  pub local_seq : t.local_seq ≡ s.local_seq
  pub cached_hashes : t.cached_hashes ≡ s.cached_hashes
  pub cached_hash_index : t.cached_hash_index ≡ s.cached_hash_index

ensure-SameHistory : (id : OpId) (v : Value) (s : DocState) → SameHistory s (ensure_nested id v s)
unfolding ensure_nested create_object set_object
ensure-SameHistory id v s = ground arith

modify-SameHistory :
    (obj : ObjId) (f : ObjectState → ObjectState) (s : DocState)
    → SameHistory s (modify_object obj f s)
unfolding modify_object set_object
modify-SameHistory obj f s = ground arith

trans_SameHistory : {s t u : DocState} → SameHistory s t → SameHistory t u → SameHistory s u
trans_SameHistory a b = record {
  actor = b.actor ∙ a.actor;
  change_history = b.change_history ∙ a.change_history;
  heads = b.heads ∙ a.heads;
  clock = b.clock ∙ a.clock;
  local_seq = b.local_seq ∙ a.local_seq;
  cached_hashes = b.cached_hashes ∙ a.cached_hashes;
  cached_hash_index = b.cached_hash_index ∙ a.cached_hash_index;
}

pub apply_op-SameHistory : (o : Op) (s : DocState) → SameHistory s (apply_op o s)
unfolding apply_op advance_counter
apply_op-SameHistory o s =
    let start : SameHistory s (advance_counter o.id s) = ground arith in
    trans_SameHistory start (
      trans_SameHistory (ensure-SameHistory o.id o.value (advance_counter o.id s)) (
        modify-SameHistory o.obj (apply_action o.action o.key o)
          (ensure_nested o.id o.value (advance_counter o.id s))))

pub apply_ops-SameHistory : (ops : List Op) (s : DocState) → SameHistory s (apply_ops ops s)
unfolding apply_ops
apply_ops-SameHistory [] s = ground arith
apply_ops-SameHistory (o ∷ ops) s =
    trans_SameHistory (apply_op-SameHistory o s) (apply_ops-SameHistory ops (apply_op o s))

pub history-apply_change :
    (c : Change) (s : DocState) → (apply_change c s).change_history ≡ s.change_history ++ (c ∷ [])
unfolding apply_change
history-apply_change c s =
    ap (λ (l : List Change). l ++ (c ∷ [])) (apply_ops-SameHistory c.operations s).change_history

pub history-apply_changes :
    (cs : List Change) (s : DocState) → (apply_changes cs s).change_history ≡ s.change_history ++ cs
unfolding apply_changes
history-apply_changes [] s = sym (append-nil s.change_history)
history-apply_changes (c ∷ cs) s =
    history-apply_changes cs (apply_change c s)
    ∙ ap (λ (l : List Change). l ++ cs) (history-apply_change c s)
    ∙ append_assoc s.change_history (c ∷ []) cs
