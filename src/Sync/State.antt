-- ===== src/Sync/State.antt =====
-- `SyncState::encode` and `SyncState::decode` of src/document.cpp.
use automerge_cpp.Prelude.{
  ℕ, zero, suc, ◌*◌, ◌^◌, ◌<◌, ◌≡◌, refl, sym, ap, ◌∙◌, subst, arith, if◌then◌else◌, ◌==◌, length,
  All, length-append,
}
use automerge_cpp.Prelude.{Option, none, some, List, [], ◌∷◌, ◌++◌, append_assoc, append-nil}
use automerge_cpp.Types.{ChangeHash}
use automerge_cpp.Encoding.Leb128.{encode_uleb128}
use automerge_cpp.Encoding.Leb128.Unsigned.{encode_uleb128-behind, length-encode_uleb128}
use automerge_cpp.Storage.Serializer.{write_u8, write_bytes, write_change_hash}
use automerge_cpp.Storage.Deserializer.{
  Deserializer, Reader, ◌>>=◌, pure, fail, mapped, read_u8, read_bytes, read_uleb128,
  read_change_hash,
}
use automerge_cpp.Storage.Reads.{
  IsAt, Reads, Reads-then, Reads-mapped, Reads-u8, Reads-uleb128, Reads-bytes,
}
use automerge_cpp.Sync.Protocol.{SyncState, new_sync_state}

unfoldable write_hashes : List ChangeHash → List ℕ → List ℕ
unfolding write_change_hash
write_hashes [] out = out
write_hashes (h ∷ hashes) out = write_hashes hashes (write_change_hash h out)

unfoldable pub encode : SyncState → List ℕ
unfolding write_u8 encode_uleb128 write_hashes
encode s = write_hashes s.shared_heads (encode_uleb128 (length s.shared_heads) (write_u8 0x43 []))

unfoldable read_hashes : ℕ → Reader (List ChangeHash)
unfolding read_change_hash
read_hashes zero = pure []
read_hashes (suc n) = do h ← read_change_hash; hashes ← read_hashes n; pure (h ∷ hashes)

abbrev read_heads : Reader (List ChangeHash)
read_heads = do marker ← read_u8; if marker == 0x43 then read_uleb128 >>= read_hashes else fail

abbrev state_of : Option (List ChangeHash × Deserializer) → Option SyncState
state_of none = none
state_of (some (heads, d)) = some (record new_sync_state { shared_heads = heads })

unfoldable pub decode : List ℕ → Option SyncState
unfolding read_u8 read_uleb128 read_hashes
decode bytes = state_of (read_heads (record { input = bytes; pos = 0 }))

abbrev pub IsHash : ChangeHash → Type 0
IsHash h = length h.bytes ≡ 32

hash_bytes : List ChangeHash → List ℕ
hash_bytes [] = []
hash_bytes (h ∷ hashes) = h.bytes ++ hash_bytes hashes

write_hashes-bytes :
    (hashes : List ChangeHash) (out : List ℕ) → write_hashes hashes out ≡ out ++ hash_bytes hashes
unfolding write_hashes hash_bytes write_change_hash write_bytes
write_hashes-bytes [] out = sym (append-nil out)
write_hashes-bytes (h ∷ hashes) out =
    write_hashes-bytes hashes (out ++ h.bytes) ∙ append_assoc out h.bytes (hash_bytes hashes)

length-hash_bytes :
    (hashes : List ChangeHash) → All IsHash hashes → length (hash_bytes hashes) ≡ 32 * length hashes
unfolding hash_bytes
length-hash_bytes [] all = refl
length-hash_bytes (h ∷ hashes) all =
    omega (arith, length-append h.bytes (hash_bytes hashes), all.0, length-hash_bytes hashes all.1)

Reads-hash : (h : ChangeHash) → IsHash h → Reads read_change_hash h.bytes h
unfolding read_change_hash
Reads-hash h is =
    Reads-mapped (λ b. record { bytes = b }) (read_bytes 32) h.bytes
      (subst (λ (n : ℕ). Reads (read_bytes n) h.bytes h.bytes) is (Reads-bytes h.bytes))

Reads-nil : Reads (read_hashes 0) [] []
unfolding read_hashes
Reads-nil d rest at = ap (λ (n : ℕ). some ([], record d { pos = n })) (omega arith)

Reads-hashes :
    (hashes : List ChangeHash)
    → All IsHash hashes
    → Reads (read_hashes (length hashes)) (hash_bytes hashes) hashes
unfolding read_hashes hash_bytes
Reads-hashes [] all = Reads-nil
Reads-hashes (h ∷ hashes) all =
    Reads-then read_change_hash (λ x. mapped (◌∷◌ x) (read_hashes (length hashes))) h.bytes
      (hash_bytes hashes) (Reads-hash h all.0)
      (Reads-mapped (◌∷◌ h) (read_hashes (length hashes)) (hash_bytes hashes)
        (Reads-hashes hashes all.1))

encode-bytes :
    (s : SyncState)
    → encode s ≡ 0x43 ∷ (encode_uleb128 (length s.shared_heads) [] ++ hash_bytes s.shared_heads)
unfolding encode write_u8
encode-bytes s =
    write_hashes-bytes s.shared_heads (encode_uleb128 (length s.shared_heads) (0x43 ∷ []))
    ∙ ap (λ (t : List ℕ). t ++ hash_bytes s.shared_heads)
        (encode_uleb128-behind (length s.shared_heads) (0x43 ∷ []))

-- Of a sync state whose hashes have 32 bytes, fewer than 2 ^ 58 of them, decode gives back the shared
-- heads, and a new state otherwise.
pub decode-encode :
    (s : SyncState)
    → All IsHash s.shared_heads
    → length s.shared_heads < 2 ^ 58
    → decode (encode s) ≡ some (record new_sync_state { shared_heads = s.shared_heads })
unfolding decode
decode-encode s is few =
    let n = length s.shared_heads in
    let code = encode_uleb128 n [] ++ hash_bytes s.shared_heads in
    let d : Deserializer = record { input = 0x43 ∷ code; pos = 0 } in
    let start : IsAt d ((0x43 ∷ code) ++ []) = record {
      left = sym (append-nil (0x43 ∷ code));
      inside = omega arith;
      small = omega (
        arith,
        length-append (encode_uleb128 n []) (hash_bytes s.shared_heads),
        length-hash_bytes s.shared_heads is,
        (length-encode_uleb128 n).1,
      );
    } in
    rw (encode-bytes s) (
      ap state_of (
        Reads-then read_u8 (λ marker. if marker == 0x43 then read_uleb128 >>= read_hashes else fail)
          (0x43 ∷ []) code (Reads-u8 0x43)
          (Reads-then read_uleb128 read_hashes (encode_uleb128 n []) (hash_bytes s.shared_heads)
            (Reads-uleb128 n (omega arith)) (Reads-hashes s.shared_heads is))
          d [] start))
