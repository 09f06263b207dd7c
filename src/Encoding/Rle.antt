-- ===== src/Encoding/Rle.antt =====
-- src/encoding/rle.hpp. `encode_value` and `decode_value` choose by the type of the values, here a
-- `Codec`. The counts are 64-bit numbers, and an `int64_t` is its 64-bit pattern.
pub mod Chunks
pub mod Steps
pub mod Shapes
pub mod Decoding
pub mod Writing
pub mod RoundTrip
use automerge_cpp.Prelude.{
  ℕ, zero, suc, ◌+◌, ◌-◌, ◌%◌, ◌^◌, if◌then◌else◌, leb, ltb, ◌==◌, length, ◌&&◌,
}
use automerge_cpp.Prelude.{Bool, true, false, not, ◌||◌, Option, none, some, List, [], ◌∷◌, ◌++◌}
use automerge_cpp.Prelude.Order.{Ord, eqb, bytes_ord, compare_bytes}
use automerge_cpp.Types.{Str}
use automerge_cpp.Encoding.Leb128.{encode_uleb128, encode_sleb128}
use automerge_cpp.Storage.Serializer.{write_string}
use automerge_cpp.Storage.Deserializer.{
  Deserializer, Reader, read_uleb128, read_sleb128, read_string,
}

pub record Codec (T : Type 0) : Type 0 where
  pub same : T → T → Bool
  pub encode_value : T → List ℕ → List ℕ
  pub decode_value : Reader T

-- `std::uint64_t`, `std::int64_t` and `std::string`.
abbrev pub uint64 : Codec ℕ
uint64 = record { same = λ a b. a == b; encode_value = encode_uleb128; decode_value = read_uleb128 }

abbrev pub int64 : Codec ℕ
int64 = record { same = λ a b. a == b; encode_value = encode_sleb128; decode_value = read_sleb128 }

abbrev pub strings : Codec Str
strings = record { same = eqb; encode_value = write_string; decode_value = read_string }

pub record RleEncoder (T : Type 0) : Type 0 where
  pub output : List ℕ
  pub run_value : Option T
  pub run_count : ℕ
  pub null_count : ℕ
  pub literal_buffer : List T

abbrev pub new_encoder : {T : Type 0} → RleEncoder T
new_encoder = record {
  output = [];
  run_value = none;
  run_count = 0;
  null_count = 0;
  literal_buffer = [];
}

-- `-static_cast<std::int64_t>(n)`
abbrev pub negative : ℕ → ℕ
negative n = (2 ^ 64 - n % 2 ^ 64) % 2 ^ 64

abbrev is_nil : {T : Type 0} → List T → Bool
is_nil [] = true
is_nil (x ∷ xs) = false

module _ {T : Type 0} (c : Codec T) where
  unfoldable pub encode_values : List T → List ℕ → List ℕ
  encode_values [] out = out
  encode_values (v ∷ vs) out = encode_values vs (c.encode_value v out)

  unfoldable pub flush_nulls : RleEncoder T → RleEncoder T
  unfolding encode_uleb128 encode_sleb128
  flush_nulls e = if e.null_count == 0 then e else (record e {
    output = encode_uleb128 e.null_count (encode_sleb128 0 e.output);
    null_count = 0;
  })

  unfoldable pub flush_literals : RleEncoder T → RleEncoder T
  unfolding encode_sleb128 encode_values
  flush_literals e = if is_nil e.literal_buffer then e else (record e {
    output =
        encode_values e.literal_buffer
          (encode_sleb128 (negative (length e.literal_buffer)) e.output);
    literal_buffer = [];
  })

  -- A run of one is a literal; a longer one is written behind the pending literals.
  unfoldable pub end_run : T → RleEncoder T → RleEncoder T
  unfolding flush_literals encode_sleb128
  end_run v e =
      let e' = flush_literals e in
      if e.run_count == 1
      then (record e {
        literal_buffer = e.literal_buffer ++ (v ∷ []);
        run_value = none;
        run_count = 0;
      })
      else (record e' {
        output = c.encode_value v (encode_sleb128 e.run_count e'.output);
        run_value = none;
        run_count = 0;
      })

  unfoldable pub flush_run : RleEncoder T → RleEncoder T
  unfolding flush_nulls end_run
  flush_run e = elim (flush_nulls e).run_value [
    | none ↦ flush_nulls e
    | some v ↦ end_run v (flush_nulls e)
  ]

  abbrev is_run_of : T → Option T → Bool
  is_run_of value none = false
  is_run_of value (some v) = c.same v value

  unfoldable pub append : T → RleEncoder T → RleEncoder T
  unfolding flush_run
  append value e =
      if is_run_of value e.run_value
      then (record e { run_count = (e.run_count + 1) % 2 ^ 64 })
      else (record (flush_run e) { run_value = some value; run_count = 1 })

  abbrev is_some : Option T → Bool
  is_some none = false
  is_some (some v) = true

  unfoldable pub append_null : RleEncoder T → RleEncoder T
  unfolding flush_run flush_literals
  append_null e =
      let e' =
        if is_some e.run_value || not (is_nil e.literal_buffer)
        then flush_literals (flush_run e)
        else e in
      record e' { null_count = (e'.null_count + 1) % 2 ^ 64 }

  unfoldable pub finish : RleEncoder T → RleEncoder T
  unfolding flush_run flush_literals flush_nulls
  finish e = flush_nulls (flush_literals (flush_run e))

-- `run_value_` starts as `T{}`, which is not read before a run is there.
pub record RleDecoder (T : Type 0) : Type 0 where
  pub source : Deserializer
  pub run_value : Option T
  pub run_remaining : ℕ
  pub literal_remaining : ℕ
  pub null_remaining : ℕ

abbrev pub new_decoder : {T : Type 0} → List ℕ → RleDecoder T
new_decoder input = record {
  source = record { input = input; pos = 0 };
  run_value = none;
  run_remaining = 0;
  literal_remaining = 0;
  null_remaining = 0;
}

-- The value of a control word as an `int64_t` is above 0.
abbrev pub is_positive : ℕ → Bool
is_positive v = not (v == 0) && ltb v (2 ^ 63)

module _ {T : Type 0} (c : Codec T) where
  -- The end, or broken data, is `none`; a null is `some none`.
  abbrev pub Answer : Type 0
  Answer = Option (Option T) × RleDecoder T

  -- A value is read, and what the code does with it; where none can be read, the position stays.
  abbrev read_one : (T → RleDecoder T → RleDecoder T) → RleDecoder T → Answer
  read_one then_do d = elim (c.decode_value d.source) [
    | none ↦ (none, d)
    | some (v, source) ↦ (some (some v), then_do v (record d { source = source }))
  ]

  unfoldable pub start_nulls : RleDecoder T → Answer
  unfolding read_uleb128
  start_nulls d = elim (read_uleb128 d.source) [
    | none ↦ (none, d)
    | some (count, source) ↦
        if count == 0
        then (none, record d { source = source; null_remaining = 0 })
        else (some none, record d { source = source; null_remaining = count - 1 })
  ]

  -- Behind a control word.
  unfoldable pub start_chunk : ℕ → RleDecoder T → Answer
  unfolding start_nulls
  start_chunk control d =
      if control == 0
      then start_nulls d
      else if is_positive control
      then read_one (λ v d'. record d' { run_value = some v; run_remaining = control - 1 }) d
      else read_one (λ v d'. d') (record d { literal_remaining = negative control - 1 })

  unfoldable pub read_control : RleDecoder T → Answer
  unfolding read_sleb128 start_chunk
  read_control d =
      let chunk : Answer = elim (read_sleb128 d.source) [
        | none ↦ (none, d)
        | some (control, source) ↦ start_chunk control (record d { source = source })
      ] in
      if leb (length d.source.input) d.source.pos then (none, d) else chunk

  unfoldable pub next : RleDecoder T → Answer
  unfolding read_control
  next d =
      if not (d.null_remaining == 0)
      then (some none, record d { null_remaining = d.null_remaining - 1 })
      else if not (d.run_remaining == 0)
      then (some d.run_value, record d { run_remaining = d.run_remaining - 1 })
      else if not (d.literal_remaining == 0)
      then read_one (λ v d'. d') (record d { literal_remaining = d.literal_remaining - 1 })
      else read_control d

  unfoldable pub done : RleDecoder T → Bool
  done d =
      leb (length d.source.input) d.source.pos
      && (d.run_remaining == 0 && (d.literal_remaining == 0 && d.null_remaining == 0))
