-- ===== src/Storage/Chunk/RoundTrip.antt =====
-- A chunk that was written, parsed and validated.
use automerge_cpp.Prelude.{
  ℕ, zero, suc, ◌+◌, ◌^◌, ◌%◌, ◌≤◌, ◌<◌, ◌≡◌, refl, ap, ◌∙◌, arith, ltb, length, take, drop,
  length-append, drop-append, drop-drop,
}
use automerge_cpp.Prelude.{true, false, some, List, [], ◌∷◌, ◌++◌, append_assoc}
use automerge_cpp.Crypto.Sha256.{sha256, sha256-bytes}
use automerge_cpp.Encoding.Leb128.{encode_uleb128}
use automerge_cpp.Encoding.Leb128.Unsigned.{decode-encode_uleb128, encode_uleb128-behind}
use automerge_cpp.Storage.Chunk.{
  ChunkHeader, chunk_magic, compute_chunk_checksum, same_bytes, parse_chunk_header,
  validate_chunk_checksum, write_chunk,
}

-- The header of a written chunk.
abbrev pub written_header : ℕ → List ℕ → ChunkHeader
written_header type body = record {
  type = type;
  checksum = compute_chunk_checksum body;
  body_offset = 9 + length (encode_uleb128 (length body) []);
  body_length = length body;
}

length-take : (n : ℕ) (xs : List ℕ) → n ≤ length xs → length (take n xs) ≡ n
length-take zero xs h = refl
length-take (suc n) [] h = absurd (omega arith)
length-take (suc n) (x ∷ xs) h = ap suc (length-take n xs (omega arith))

length-checksum : (body : List ℕ) → length (compute_chunk_checksum body) ≡ 4
unfolding compute_chunk_checksum
length-checksum body = length-take 4 (sha256 body) (omega (arith, (sha256-bytes body).0))

same_bytes_refl : (xs : List ℕ) → same_bytes xs xs ≡ true
unfolding same_bytes
same_bytes_refl [] = refl
same_bytes_refl (x ∷ xs) = ground (arith, same_bytes_refl xs)

take-append : (xs ys : List ℕ) → take (length xs) (xs ++ ys) ≡ xs
take-append [] ys = refl
take-append (x ∷ xs) ys = ap (◌∷◌ x) (take-append xs ys)

-- A chunk with a given checksum, and what follows it.
abbrev chunk : List ℕ → ℕ → List ℕ → List ℕ → List ℕ
chunk sum type body rest =
    chunk_magic ++ (sum ++ (type ∷ (encode_uleb128 (length body) [] ++ (body ++ rest))))

write_chunk-chunk :
    (type : ℕ) (body rest : List ℕ)
    → write_chunk type body [] ++ rest ≡ chunk (compute_chunk_checksum body) type body rest
unfolding write_chunk
write_chunk-chunk type body rest =
    let sum = compute_chunk_checksum body in
    let code = encode_uleb128 (length body) [] in
    let front = (chunk_magic ++ sum) ++ (type ∷ []) in
    ap (λ (t : List ℕ). (t ++ body) ++ rest) (encode_uleb128-behind (length body) front)
    ∙ append_assoc (front ++ code) body rest
    ∙ append_assoc front code (body ++ rest)
    ∙ append_assoc (chunk_magic ++ sum) (type ∷ []) (code ++ (body ++ rest))
    ∙ append_assoc chunk_magic sum (type ∷ (code ++ (body ++ rest)))

parse-chunk :
    (sum : List ℕ) (type : ℕ) (body rest : List ℕ)
    → length sum ≡ 4
    → length body < 2 ^ 64
    → parse_chunk_header (chunk sum type body rest)
      ≡ some (record (written_header type body) { checksum = sum })
unfolding parse_chunk_header same_bytes
parse-chunk (a ∷ b ∷ c ∷ d ∷ []) type body rest four bound =
    rw (decode-encode_uleb128 (length body) (body ++ rest) bound) (ground arith)
parse-chunk [] type body rest four bound = absurd (omega arith)
parse-chunk (a ∷ []) type body rest four bound = absurd (omega arith)
parse-chunk (a ∷ b ∷ []) type body rest four bound = absurd (omega arith)
parse-chunk (a ∷ b ∷ c ∷ []) type body rest four bound = absurd (omega arith)
parse-chunk (a ∷ b ∷ c ∷ d ∷ e ∷ sum) type body rest four bound = absurd (omega arith)

body-chunk :
    (sum : List ℕ) (type : ℕ) (body rest : List ℕ)
    → length sum ≡ 4
    → drop (9 + length (encode_uleb128 (length body) [])) (chunk sum type body rest) ≡ body ++ rest
body-chunk (a ∷ b ∷ c ∷ d ∷ []) type body rest four =
    drop-drop 9 (length (encode_uleb128 (length body) []))
      (chunk (a ∷ b ∷ c ∷ d ∷ []) type body rest)
    ∙ drop-append (encode_uleb128 (length body) []) (body ++ rest)
body-chunk [] type body rest four = absurd (omega arith)
body-chunk (a ∷ []) type body rest four = absurd (omega arith)
body-chunk (a ∷ b ∷ []) type body rest four = absurd (omega arith)
body-chunk (a ∷ b ∷ c ∷ []) type body rest four = absurd (omega arith)
body-chunk (a ∷ b ∷ c ∷ d ∷ e ∷ sum) type body rest four = absurd (omega arith)

length-chunk :
    (sum : List ℕ) (type : ℕ) (body rest : List ℕ)
    → length sum ≡ 4
    → length (chunk sum type body rest)
      ≡ 9 + length (encode_uleb128 (length body) []) + length body + length rest
length-chunk sum type body rest four = omega (
  arith,
  length-append sum (type ∷ (encode_uleb128 (length body) [] ++ (body ++ rest))),
  length-append (encode_uleb128 (length body) []) (body ++ rest),
  length-append body rest,
)

validate-chunk :
    (type : ℕ) (body rest : List ℕ)
    → length (chunk (compute_chunk_checksum body) type body rest) < 2 ^ 64
    → validate_chunk_checksum
        (written_header type body)
        (chunk (compute_chunk_checksum body) type body rest)
      ≡ true
unfolding validate_chunk_checksum
validate-chunk type body rest small =
    let sum = compute_chunk_checksum body in
    let n = 9 + length (encode_uleb128 (length body) []) in
    let total = length-chunk sum type body rest (length-checksum body) in
    let ends : (n + length body) % 2 ^ 64 ≡ n + length body = omega (arith, total) in
    let room : ltb (length (chunk sum type body rest)) (n + length body) ≡ false =
      ground (arith, total) in
    rw (ends, room, body-chunk sum type body rest (length-checksum body), take-append body rest)
      (same_bytes_refl sum)

-- A chunk that was written, in data whose length is below 2 ^ 64, is parsed to its type, its checksum
-- and the place of its body, whatever follows it, and its checksum is valid.
pub parse-write_chunk :
    (type : ℕ) (body rest : List ℕ)
    → length (write_chunk type body [] ++ rest) < 2 ^ 64
    → (parse_chunk_header (write_chunk type body [] ++ rest) ≡ some (written_header type body))
      × (validate_chunk_checksum (written_header type body) (write_chunk type body [] ++ rest)
          ≡ true)
parse-write_chunk type body rest small =
    let e = write_chunk-chunk type body rest in
    let total = length-chunk (compute_chunk_checksum body) type body rest (length-checksum body) in
    let bound : length (chunk (compute_chunk_checksum body) type body rest) < 2 ^ 64 =
      omega (arith, ap length e) in
    (
      ap parse_chunk_header e
          ∙ parse-chunk (compute_chunk_checksum body) type body rest (length-checksum body)
              (omega (arith, total)),
      ap (validate_chunk_checksum (written_header type body)) e
          ∙ validate-chunk type body rest bound,
    )
