-- ===== src/Tests/Documents.antt =====
-- Documents with one map object, the root, and operations of two actors.
use automerge_cpp.Prelude.{◌≡◌, ◌≢◌, refl, arith, none, some, [], ◌∷◌, if◌then◌else◌}
use automerge_cpp.Types.{
  ActorId, ObjType, Op, OpType, Prop, Str, Value, root, scalar, string, counter,
}
use automerge_cpp.Types.{compare_obj_id}
use automerge_cpp.Prelude.Order.{compare_bytes}
use automerge_cpp.DocState.{contains, DocState, initial, get_object, empty_object}
use automerge_cpp.DocState.MapOps.{map_get, map_get_all}
use automerge_cpp.DocState.Apply.{apply_op}
use automerge_cpp.DocState.Registers.{conflicts, key_step, targets, conflicts-apply_op}
use automerge_cpp.DocState.Registers.Convergence.{AreConcurrent, reads_converge}
use automerge_cpp.DocState.Registers.Counters.{increments_commute, put-increment_diverges}
use mathlib.Core.List.{Perm}
use automerge_cpp.Prelude.{Option}
use automerge_cpp.Types.{compare_op_id}
use automerge_cpp.DocState.MapOps.{counter_increment}
use automerge_cpp.DocState.Registers.Increment.{increment-replay_diverges}

abbrev alice : ActorId
alice = record { bytes = 1 ∷ [] }

abbrev bob : ActorId
bob = record { bytes = 2 ∷ [] }

abbrev name : Str
name = b'n' ∷ []

abbrev start : DocState
start = initial alice

abbrev write : ActorId → OpType → Value → Op
write actor action value = record {
  id = record { counter = 1; actor = actor };
  obj = root;
  key = Prop.key name;
  action = action;
  value = value;
  pred = [];
  insert_after = none;
}

abbrev put_a : Op
put_a = write alice OpType.put (scalar (string (b'a' ∷ [])))

abbrev put_b : Op
put_b = write bob OpType.put (scalar (string (b'b' ∷ [])))

start-root : get_object root start ≡ some (empty_object ObjType.map)
unfolding get_object initial compare_obj_id
start-root = refl

apart : put_a.id ≢ put_b.id
apart e = cc e

concurrent : AreConcurrent put_a put_b
unfolding contains
concurrent = record { apart = apart; unseen_a = refl; unseen_b = refl }

-- Bob's write wins in either order.
bob_wins :
    map_get root name (apply_op put_a (apply_op put_b start)) ≡ some (scalar (string (b'b' ∷ [])))
unfolding map_get apply_op initial compare_obj_id compare_bytes
bob_wins = refl

conflicts-apply_op_example : conflicts root name (apply_op put_a start) ≡ (
    if targets put_a root name
    then key_step OpType.put put_a (conflicts root name start)
    else conflicts root name start)
conflicts-apply_op_example = conflicts-apply_op put_a root name start start-root

reads_converge_example :
    (map_get root name (apply_op put_b (apply_op put_a start))
      ≡ map_get root name (apply_op put_a (apply_op put_b start)))
    × Perm
        (map_get_all root name (apply_op put_b (apply_op put_a start)))
        (map_get_all root name (apply_op put_a (apply_op put_b start)))
reads_converge_example =
    reads_converge put_a put_b start tt tt concurrent start-root start-root root name

abbrev add_a : Op
add_a = write alice OpType.increment (scalar (counter 2))

abbrev add_b : Op
add_b = write bob OpType.increment (scalar (counter 5))

increments_commute_example :
    conflicts root name (apply_op add_b (apply_op add_a start))
    ≡ conflicts root name (apply_op add_a (apply_op add_b start))
increments_commute_example =
    increments_commute add_a add_b start refl refl start-root start-root root name

abbrev put_counter : Op
put_counter = write alice OpType.put (scalar (counter 10))

put-increment_diverges_example :
    conflicts root name (apply_op add_b (apply_op put_counter start))
    ≢ conflicts root name (apply_op put_counter (apply_op add_b start))
put-increment_diverges_example =
    put-increment_diverges put_counter add_b start name 10 5 refl refl refl refl refl refl refl
      start-root (omega arith) (omega arith) (omega arith)

-- Two counters of concurrent puts at one key, and an increment by 5.
abbrev conflicted : DocState
conflicted = apply_op (write bob OpType.put (scalar (counter 20))) (apply_op put_counter start)

abbrev or_start : Option DocState → DocState
or_start none = start
or_start (some s) = s

abbrev incremented : DocState
incremented = or_start (counter_increment root name 5 conflicted)

increment-replay_diverges_example :
    conflicts root name incremented ≢ conflicts root name (apply_op add_b conflicted)
unfolding counter_increment conflicts apply_op initial compare_obj_id compare_bytes compare_op_id
increment-replay_diverges_example =
    increment-replay_diverges add_b conflicted name 10 5
      (record { op_id = put_counter.id; value = scalar (counter 10) })
      (record { op_id = record { counter = 1; actor = bob }; value = scalar (counter 20) }) [] refl
      refl refl refl refl refl (omega arith) (omega arith) (omega arith) refl
