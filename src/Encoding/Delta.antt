-- ===== src/Encoding/Delta.antt =====
-- src/encoding/delta_encoder.hpp: a run-length column of the differences between neighbours. An
-- `int64_t` is its 64-bit pattern, and sums and differences are taken modulo 2 ^ 64 where they leave
-- the range, which C++ does not define.
pub mod RoundTrip
use automerge_cpp.Prelude.{ℕ, ◌+◌, ◌-◌, ◌%◌, ◌^◌, Bool, Option, none, some, List}
use automerge_cpp.Encoding.Rle.{RleEncoder, RleDecoder, int64}
use automerge_cpp.Encoding.Rle as Rle

pub record DeltaEncoder : Type 0 where
  pub rle : RleEncoder ℕ
  pub prev : ℕ

abbrev pub new_encoder : DeltaEncoder
new_encoder = record { rle = Rle.new_encoder; prev = 0 }

abbrev pub difference : ℕ → ℕ → ℕ
difference value prev = (value + (2 ^ 64 - prev % 2 ^ 64)) % 2 ^ 64

unfoldable pub append : ℕ → DeltaEncoder → DeltaEncoder
unfolding Rle.append
append value e = record { rle = Rle.append int64 (difference value e.prev) e.rle; prev = value }

unfoldable pub append_null : DeltaEncoder → DeltaEncoder
unfolding Rle.append_null
append_null e = record e { rle = Rle.append_null int64 e.rle }

unfoldable pub finish : DeltaEncoder → DeltaEncoder
unfolding Rle.finish
finish e = record e { rle = Rle.finish int64 e.rle }

pub record DeltaDecoder : Type 0 where
  pub rle : RleDecoder ℕ
  pub absolute : ℕ

abbrev pub new_decoder : List ℕ → DeltaDecoder
new_decoder input = record { rle = Rle.new_decoder input; absolute = 0 }

-- A difference is added to the sum, which a null leaves.
abbrev pub accumulate :
    DeltaDecoder → Option (Option ℕ) × RleDecoder ℕ → Option (Option ℕ) × DeltaDecoder
accumulate d (none, rle) = (none, record d { rle = rle })
accumulate d (some none, rle) = (some none, record d { rle = rle })
accumulate d (some (some delta), rle) =
    let sum = (d.absolute + delta) % 2 ^ 64 in
    (some (some sum), record { rle = rle; absolute = sum })

unfoldable pub next : DeltaDecoder → Option (Option ℕ) × DeltaDecoder
unfolding Rle.next
next d = accumulate d (Rle.next int64 d.rle)

unfoldable pub done : DeltaDecoder → Bool
unfolding Rle.done
done d = Rle.done int64 d.rle
