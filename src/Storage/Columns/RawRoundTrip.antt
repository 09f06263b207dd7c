-- ===== src/Storage/Columns/RawRoundTrip.antt =====
-- The columns that are written are the columns that are read.
use automerge_cpp.Prelude.{
  ℕ, ◌%◌, ◌^◌, ◌<◌, ◌≡◌, sym, ap, ◌∙◌, arith, length, leb, length-append, All,
}
use automerge_cpp.Prelude.{false, some, List, [], ◌∷◌, ◌++◌, append_assoc, append-nil}
use automerge_cpp.Encoding.Leb128.{encode_uleb128}
use automerge_cpp.Encoding.Leb128.Unsigned.{encode_uleb128-behind, length-encode_uleb128}
use automerge_cpp.Storage.Deserializer.{Deserializer, skip}
use automerge_cpp.Storage.Reads.{
  IsAt, Reads, Reads-uleb128, Reads-bytes, length-IsAt, skip-IsAt, skip-skip,
}
use automerge_cpp.Storage.Columns.Spec.{to_u32, to_u32-bound, from_u32-to_u32}
use automerge_cpp.Storage.Columns.Raw.{
  RawColumn, ColHeader, read_more, read_header, read_headers, read_columns, parse_raw_columns,
  write_headers, write_data, write_raw_columns, and_headers,
}

-- The bytes of the headers, and those of the columns.
abbrev header_bytes : RawColumn → List ℕ
header_bytes c = encode_uleb128 (to_u32 c.spec) [] ++ encode_uleb128 (length c.bytes) []

unfoldable headers_bytes : List RawColumn → List ℕ
headers_bytes [] = []
headers_bytes (c ∷ cs) = header_bytes c ++ headers_bytes cs

unfoldable all_data : List RawColumn → List ℕ
all_data [] = []
all_data (c ∷ cs) = c.bytes ++ all_data cs

abbrev header_of : RawColumn → ColHeader
header_of c = record { spec = c.spec; length = length c.bytes }

unfoldable headers : List RawColumn → List ColHeader
headers [] = []
headers (c ∷ cs) = header_of c ∷ headers cs

write_headers-bytes :
    (cs : List RawColumn) (out : List ℕ) → write_headers cs out ≡ out ++ headers_bytes cs
unfolding write_headers headers_bytes
write_headers-bytes [] out = sym (append-nil out)
write_headers-bytes (c ∷ cs) out =
    let front = encode_uleb128 (to_u32 c.spec) in
    let code = encode_uleb128 (length c.bytes) [] in
    write_headers-bytes cs (encode_uleb128 (length c.bytes) (front out))
    ∙ ap (λ (t : List ℕ). t ++ headers_bytes cs)
        (encode_uleb128-behind (length c.bytes) (front out)
          ∙ ap (λ (t : List ℕ). t ++ code) (encode_uleb128-behind (to_u32 c.spec) out)
          ∙ append_assoc out (front []) code)
    ∙ append_assoc out (front [] ++ code) (headers_bytes cs)

write_data-all_data : (cs : List RawColumn) (out : List ℕ) → write_data cs out ≡ out ++ all_data cs
unfolding write_data all_data
write_data-all_data [] out = sym (append-nil out)
write_data-all_data (c ∷ cs) out =
    write_data-all_data cs (out ++ c.bytes) ∙ append_assoc out c.bytes (all_data cs)

-- A column that can be written: its number has 28 bits.
abbrev pub IsColumn : RawColumn → Type 0
IsColumn c = ((c.spec).column_id < 2 ^ 28) × (length c.bytes < 2 ^ 64)

IsAt-apart :
    (d : Deserializer) (front code rest : List ℕ)
    → IsAt d ((front ++ code) ++ rest)
    → IsAt d (front ++ (code ++ rest))
IsAt-apart d front code rest at = record {
  left = at.left ∙ append_assoc front code rest;
  inside = at.inside;
  small = at.small;
}

Reads-more : (v : ℕ) → v < 2 ^ 64 → Reads read_more (encode_uleb128 v []) v
unfolding read_more
Reads-more v small d rest at =
    let more : leb (length d.input) d.pos ≡ false = ground (
      arith,
      length-IsAt d (encode_uleb128 v [] ++ rest) at,
      length-append (encode_uleb128 v []) rest,
      length-encode_uleb128 v,
    ) in
    rw more (Reads-uleb128 v small d rest at)

read_header-bytes :
    (c : RawColumn) (d : Deserializer) (rest : List ℕ)
    → IsColumn c
    → IsAt d (header_bytes c ++ rest)
    → read_header d ≡ (some (header_of c), skip (length (header_bytes c)) d)
unfolding read_header
read_header-bytes c d rest is at =
    let first = encode_uleb128 (to_u32 c.spec) [] in
    let second = encode_uleb128 (length c.bytes) [] in
    let here = IsAt-apart d first second rest at in
    let number : to_u32 c.spec % 2 ^ 32 ≡ to_u32 c.spec = omega (arith, to_u32-bound c.spec is.0) in
    rw
      (
        read_header,
        Reads-more (to_u32 c.spec) (omega (arith, to_u32-bound c.spec is.0)) d (second ++ rest)
            here,
        Reads-more (length c.bytes) is.1 (skip (length first) d) rest
            (skip-IsAt d first (second ++ rest) here),
        number,
        from_u32-to_u32 c.spec is.0,
      )
      (ap (λ (t : Deserializer). (some (header_of c), t)) (skip-skip d first second))

read_headers-bytes :
    (cs : List RawColumn) (d : Deserializer) (rest : List ℕ)
    → All IsColumn cs
    → IsAt d (headers_bytes cs ++ rest)
    → read_headers (length cs) d ≡ (headers cs, skip (length (headers_bytes cs)) d)
unfolding read_headers headers headers_bytes
read_headers-bytes [] d rest is at = ap (λ (n : ℕ). ([], record d { pos = n })) (omega arith)
read_headers-bytes (c ∷ cs) d rest is at =
    let here = IsAt-apart d (header_bytes c) (headers_bytes cs) rest at in
    let behind = skip (length (header_bytes c)) d in
    ap (and_headers (read_headers (length cs)))
      (read_header-bytes c d (headers_bytes cs ++ rest) is.0 here)
    ∙ ap (λ (t : List ColHeader × Deserializer). (header_of c ∷ t.0, t.1))
        (read_headers-bytes cs behind rest is.1
          (skip-IsAt d (header_bytes c) (headers_bytes cs ++ rest) here))
    ∙ ap (λ (t : Deserializer). (header_of c ∷ headers cs, t))
        (skip-skip d (header_bytes c) (headers_bytes cs))

read_columns-data :
    (cs : List RawColumn) (d : Deserializer) (rest : List ℕ)
    → IsAt d (all_data cs ++ rest)
    → read_columns (headers cs) d ≡ (cs, skip (length (all_data cs)) d)
unfolding read_columns headers all_data
read_columns-data [] d rest at = ap (λ (n : ℕ). ([], record d { pos = n })) (omega arith)
read_columns-data (c ∷ cs) d rest at =
    let here = IsAt-apart d c.bytes (all_data cs) rest at in
    let behind = skip (length c.bytes) d in
    rw (read_columns, Reads-bytes c.bytes d (all_data cs ++ rest) here)
      (ap (λ (t : List RawColumn × Deserializer). (c ∷ t.0, t.1))
          (read_columns-data cs behind rest (skip-IsAt d c.bytes (all_data cs ++ rest) here))
        ∙ ap (λ (t : Deserializer). (c ∷ cs, t)) (skip-skip d c.bytes (all_data cs)))

-- What the columns are written as.
abbrev columns_bytes : List RawColumn → List ℕ
columns_bytes cs = encode_uleb128 (length cs) [] ++ (headers_bytes cs ++ all_data cs)

write_raw_columns-bytes :
    (cs : List RawColumn) (out : List ℕ) → write_raw_columns cs out ≡ out ++ columns_bytes cs
unfolding write_raw_columns
write_raw_columns-bytes cs out =
    let count = encode_uleb128 (length cs) in
    write_data-all_data cs (write_headers cs (count out))
    ∙ ap (λ (t : List ℕ). t ++ all_data cs)
        (write_headers-bytes cs (count out)
          ∙ ap (λ (t : List ℕ). t ++ headers_bytes cs) (encode_uleb128-behind (length cs) out)
          ∙ append_assoc out (count []) (headers_bytes cs))
    ∙ append_assoc out (count [] ++ headers_bytes cs) (all_data cs)
    ∙ ap (◌++◌ out) (append_assoc (count []) (headers_bytes cs) (all_data cs))

-- Columns with numbers of 28 bits that are written, fewer than 2 ^ 64 and of fewer than 2 ^ 64 bytes
-- each, are read back at their place in the data, whatever follows them, and the reader goes on
-- behind them.
pub parse-write_raw_columns :
    (cs : List RawColumn) (d : Deserializer) (rest : List ℕ)
    → All IsColumn cs
    → length cs < 2 ^ 64
    → IsAt d (write_raw_columns cs [] ++ rest)
    → parse_raw_columns d ≡ (cs, skip (length (write_raw_columns cs [])) d)
unfolding parse_raw_columns
parse-write_raw_columns cs d rest is few at =
    let count = encode_uleb128 (length cs) [] in
    let heads = headers_bytes cs in
    let bytes = write_raw_columns-bytes cs [] in
    let whole : IsAt d (columns_bytes cs ++ rest) = rw (sym bytes) at in
    let first = IsAt-apart d count (heads ++ all_data cs) rest whole in
    let behind = skip (length count) d in
    let second =
      IsAt-apart behind heads (all_data cs) rest
        (skip-IsAt d count ((heads ++ all_data cs) ++ rest) first) in
    rw
      (
        bytes,
        parse_raw_columns,
        Reads-more (length cs) few d ((heads ++ all_data cs) ++ rest) first,
        read_headers-bytes cs behind (all_data cs ++ rest) is second,
      )
      (read_columns-data cs (skip (length heads) behind) rest
          (skip-IsAt behind heads (all_data cs ++ rest) second)
        ∙ ap (λ (t : Deserializer). (cs, t))
            (skip-skip behind heads (all_data cs) ∙ skip-skip d count (heads ++ all_data cs)))
