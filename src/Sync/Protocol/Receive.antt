-- ===== src/Sync/Protocol/Receive.antt =====
-- What a received message does to the document.
use automerge_cpp.Prelude.{ℕ, zero, suc, ◌+◌, ◌≤◌, ◌≡◌, refl, ap, ◌∙◌, arith, length, insert_at}
use automerge_cpp.Prelude.{some, List, [], ◌∷◌}
use automerge_cpp.Types.{Change, Op, OpType}
use automerge_cpp.DocState.{DocState, ObjectState, get_object}
use automerge_cpp.DocState.Apply.{apply_op, apply_insert, apply_action}
use automerge_cpp.DocState.Elements.{elements, elements-get, get-apply_op}
use automerge_cpp.DocState.History.{apply_ops}
use automerge_cpp.Document.{apply_change, apply_changes}
use automerge_cpp.Document.Clock.{max_seq}
use automerge_cpp.Document.Invariant.{IsConsistent, apply_changes-IsConsistent}
use automerge_cpp.Sync.Protocol.{SyncMessage, SyncState, receive_sync_message}

-- A message keeps the document consistent, if it brings no change of the document's own actor that is
-- newer than its last one.
pub receive_sync_message-IsConsistent :
    (m : SyncMessage) (s : DocState) (sync : SyncState)
    → max_seq s.actor m.changes ≤ s.local_seq
    → IsConsistent s
    → IsConsistent (receive_sync_message m s sync).0
unfolding receive_sync_message
receive_sync_message-IsConsistent m s sync own i = apply_changes-IsConsistent m.changes s own i

length-insert_at :
    {A : Type 0} (i : ℕ) (v : A) (xs : List A) → length (insert_at i v xs) ≡ suc (length xs)
length-insert_at zero v xs = refl
length-insert_at (suc i) v [] = refl
length-insert_at (suc i) v (x ∷ xs) = ap suc (length-insert_at i v xs)

get-insert :
    (o : Op) (s : DocState) {st : ObjectState}
    → o.action ≡ OpType.insert
    → get_object o.obj s ≡ some st
    → get_object o.obj (apply_op o s) ≡ some (apply_insert o st)
unfolding apply_action
get-insert o s {st} act h = get-apply_op o s h ∙ simp act refl

get-insert_change :
    (c : Change) (o : Op) (s : DocState) {st : ObjectState}
    → c.operations ≡ o ∷ []
    → o.action ≡ OpType.insert
    → get_object o.obj s ≡ some st
    → get_object o.obj (apply_change c s) ≡ some (apply_insert o st)
unfolding apply_change get_object apply_ops
get-insert_change c o s ops act h =
    ap (λ (l : List Op). get_object o.obj (apply_ops l s)) ops ∙ get-insert o s act h

length-apply_insert :
    (o : Op) (st : ObjectState)
    → length (apply_insert o st).list_elements ≡ suc (length st.list_elements)
unfolding apply_insert
length-apply_insert o st = length-insert_at _ _ st.list_elements

-- A message whose only change inserts an element into a list, received twice: the element is there
-- twice.
pub receive_twice_duplicates :
    (m : SyncMessage) (c : Change) (o : Op) (s : DocState) (sync : SyncState) {st : ObjectState}
    → m.changes ≡ c ∷ []
    → c.operations ≡ o ∷ []
    → o.action ≡ OpType.insert
    → get_object o.obj s ≡ some st
    → (let (s', sync') = receive_sync_message m s sync in
        length (elements o.obj (receive_sync_message m s' sync').0))
      ≡ length (elements o.obj s) + 2
unfolding receive_sync_message apply_changes
receive_twice_duplicates m c o s sync {st} changes ops act h =
    let first = get-insert_change c o s ops act h in
    let second = get-insert_change c o (apply_change c s) ops act first in
    let both : apply_changes m.changes (apply_changes m.changes s)
        ≡ apply_change c (apply_change c s) =
      ap (λ (l : List Change). apply_changes l (apply_changes l s)) changes in
    ap (λ (t : DocState). length (elements o.obj t)) both
    ∙ omega (
      arith,
      ap length (elements-get o.obj (apply_change c (apply_change c s)) second),
      ap length (elements-get o.obj s h),
      length-apply_insert o (apply_insert o st),
      length-apply_insert o st,
    )
