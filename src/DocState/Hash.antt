-- ===== src/DocState/Hash.antt =====
-- `compute_change_hash` of src/doc_state.hpp.
use automerge_cpp.Prelude.{ℕ, ◌/◌, ◌%◌, ◌^◌, ◌≡◌, refl, ap, length}
use automerge_cpp.Prelude.{Option, List, [], ◌∷◌, ◌++◌}
use automerge_cpp.Types.{ChangeHash, Change, Op, Str}
use automerge_cpp.Crypto.Sha256.{sha256}

-- The 8 bytes of a number, the lowest first.
unfoldable pub le64 : ℕ → List ℕ
le64 v =
    v % 256
    ∷ v / 2 ^ 8 % 256
    ∷ v / 2 ^ 16 % 256
    ∷ v / 2 ^ 24 % 256
    ∷ v / 2 ^ 32 % 256
    ∷ v / 2 ^ 40 % 256
    ∷ v / 2 ^ 48 % 256
    ∷ v / 2 ^ 56 % 256
    ∷ []

unfoldable dep_bytes : List ChangeHash → List ℕ
dep_bytes [] = []
dep_bytes (dep ∷ deps) = dep.bytes ++ dep_bytes deps

-- The bytes that are hashed.
unfoldable pub hash_input : Change → List ℕ
unfolding le64 dep_bytes
hash_input change =
    change.actor.bytes
    ++ (le64 change.seq
        ++ (le64 change.start_op
            ++ (le64 change.timestamp
                ++ (le64 (length change.operations % 2 ^ 64) ++ dep_bytes change.deps))))

unfoldable hash_of : List ℕ → ChangeHash
unfolding sha256
hash_of input = record { bytes = sha256 input }

unfoldable pub compute_change_hash : Change → ChangeHash
unfolding hash_input hash_of
compute_change_hash change = hash_of (hash_input change)

hash_input-contents :
    (c : Change) (message : Option Str) (ops : List Op)
    → length ops ≡ length c.operations
    → hash_input (record c { message = message; operations = ops }) ≡ hash_input c
unfolding hash_input
hash_input-contents c message ops h = rw h refl

-- The hash of a change depends on the number of its operations only, and not on its message: two
-- changes that differ in these have the same hash.
pub compute_change_hash-contents :
    (c : Change) (message : Option Str) (ops : List Op)
    → length ops ≡ length c.operations
    → compute_change_hash (record c { message = message; operations = ops }) ≡ compute_change_hash c
unfolding compute_change_hash
compute_change_hash-contents c message ops h = ap hash_of (hash_input-contents c message ops h)
