-- ===== src/Encoding/Boolean.antt =====
-- src/encoding/boolean_encoder.hpp: alternating counts of false and true values, false first.
pub mod Writer
pub mod Reader
pub mod RoundTrip
pub mod Maybe
use automerge_cpp.Prelude.{ℕ, zero, suc, ◌+◌, ◌-◌, ◌%◌, ◌^◌, if◌then◌else◌, leb, ◌==◌, length, drop}
use automerge_cpp.Prelude.{Bool, true, false, not, Option, none, some, List, [], ◌∷◌}
use automerge_cpp.Encoding.Leb128.{DecodeResult, encode_uleb128, decode_uleb128}

-- `value == current_value_`
unfoldable pub same_value : Bool → Bool → Bool
same_value true b = b
same_value false b = not b

pub record BooleanEncoder : Type 0 where
  pub output : List ℕ
  pub current_value : Bool
  pub count : ℕ

abbrev pub new_encoder : BooleanEncoder
new_encoder = record { output = []; current_value = false; count = 0 }

unfoldable pub append : Bool → BooleanEncoder → BooleanEncoder
unfolding same_value
append value e =
    if same_value value e.current_value
    then (record e { count = (e.count + 1) % 2 ^ 64 })
    else (record { output = encode_uleb128 e.count e.output; current_value = value; count = 1 })

unfoldable pub finish : BooleanEncoder → BooleanEncoder
finish e = if e.count == 0 then e else (record e { output = encode_uleb128 e.count e.output })

-- `take`: the bytes are moved out.
unfoldable take : BooleanEncoder → List ℕ × BooleanEncoder
take e = (e.output, record e { output = [] })

pub record BooleanDecoder : Type 0 where
  pub input : List ℕ
  pub pos : ℕ
  pub current_value : Bool
  pub remaining : ℕ

abbrev pub new_decoder : List ℕ → BooleanDecoder
new_decoder input = record { input = input; pos = 0; current_value = false; remaining = 0 }

-- One round of the loop of `next`, behind the bytes of a count.
unfoldable pub start_run : DecodeResult → BooleanDecoder → BooleanDecoder
start_run r d = record d {
  pos = d.pos + r.bytes_read;
  remaining = r.value;
  current_value = if r.value == 0 then not d.current_value else d.current_value;
}

-- `while (remaining_ == 0)`: whether a run was found, and the state. Each round reads a byte at least.
unfoldable pub find_run : ℕ → BooleanDecoder → Bool × BooleanDecoder
unfolding start_run
find_run zero d = (false, d)
find_run (suc fuel) d =
    let rest : Bool × BooleanDecoder = elim (decode_uleb128 (drop d.pos d.input)) [
      | none ↦ (false, d)
      | some r ↦ find_run fuel (start_run r d)
    ] in
    if d.remaining == 0 then if leb (length d.input) d.pos then (false, d) else rest else (true, d)

-- `--remaining_`, and the other value behind the last one of a run.
unfoldable pub take_one : BooleanDecoder → BooleanDecoder
take_one d = record d {
  remaining = d.remaining - 1;
  current_value = if d.remaining - 1 == 0 then not d.current_value else d.current_value;
}

abbrev pub next_of : Bool × BooleanDecoder → Option Bool × BooleanDecoder
next_of (found, d) = if found then (some d.current_value, take_one d) else (none, d)

unfoldable pub next : BooleanDecoder → Option Bool × BooleanDecoder
unfolding find_run take_one
next d = next_of (find_run (suc (length d.input)) d)

unfoldable pub done : BooleanDecoder → Bool
done d = if leb (length d.input) d.pos then d.remaining == 0 else false
