-- ===== src/Storage/Columns/Compression.antt =====
-- src/storage/columns/compression.hpp. zlib is a parameter: `deflate` is a run of it from the start to
-- the end of its input, and `inflate` one with room for a number of bytes. The rounds that go on with
-- more room are runs with that room from the start.
use Prim.Native.Nat.{min}
use native.Mathlib.Nat.{pow-suc}
use native.Mathlib.Decide.{dec_lt}
use automerge_cpp.Prelude.{
  ℕ, zero, suc, ◌*◌, ◌%◌, ◌^◌, ◌≤◌, ◌<◌, ◌≡◌, sym, refl, ap, ◌∙◌, arith, if◌then◌else◌, ltb, length,
  take,
}
use automerge_cpp.Storage.Reads.{take-all}
use automerge_cpp.Prelude.Bits.{power_pos}
use automerge_cpp.Prelude.{true, Option, none, some, List, [], ◌∷◌}

-- What a run of `inflate` returns: `Z_STREAM_END` with what it has written, `Z_OK` or `Z_BUF_ERROR`,
-- or another error.
pub data Inflated : Type 0 where
  stream_end : List ℕ → Inflated
  more_space : Inflated
  error : Inflated

abbrev pub max_output_size : ℕ
max_output_size = 64 * 1024 * 1024

-- `static_cast<uInt>` of the size keeps 32 bits of it.
abbrev avail_in : List ℕ → List ℕ
avail_in input = take (length input % 2 ^ 32) input

module _ (deflate : List ℕ → Option (List ℕ)) where
  unfoldable pub deflate_compress : List ℕ → Option (List ℕ)
  deflate_compress [] = some []
  deflate_compress (b ∷ input) = deflate (avail_in (b ∷ input))

module _ (inflate : List ℕ → ℕ → Inflated) where
  -- `while (ret != Z_STREAM_END && output_size < max_output_size)`: the size is 4 at least, and 24
  -- rounds double it to the greatest size.
  unfoldable pub grow : ℕ → List ℕ → ℕ → Inflated → Inflated
  grow fuel input output_size (stream_end output) = stream_end output
  grow zero input output_size ret = ret
  grow (suc fuel) input output_size ret =
      let doubled = min (output_size * 2) max_output_size in
      let rest = grow fuel input doubled (inflate input doubled) in
      if ltb output_size max_output_size then rest else ret

  abbrev retry : List ℕ → ℕ → Inflated → Inflated
  retry input output_size more_space = grow 24 input output_size more_space
  retry input output_size ret = ret

  abbrev output_of : Inflated → Option (List ℕ)
  output_of (stream_end output) = some output
  output_of more_space = none
  output_of error = none

  unfoldable pub deflate_decompress : List ℕ → Option (List ℕ)
  deflate_decompress [] = some []
  deflate_decompress (b ∷ bytes) =
      let input = avail_in (b ∷ bytes) in
      let output_size = min (length (b ∷ bytes) * 4) max_output_size in
      output_of (retry input output_size (inflate input output_size))

  -- What is inflated with room for it, and needs more space with less room.
  pub record Inflates (input output : List ℕ) : Type 0 where
    pub enough : (size : ℕ) → length output ≤ size → inflate input size ≡ stream_end output
    pub short : (size : ℕ) → size < length output → inflate input size ≡ more_space

  reaches :
      (size fuel : ℕ)
      → max_output_size ≤ size * 2 ^ suc fuel
      → max_output_size ≤ min (size * 2) max_output_size * 2 ^ fuel
  reaches size fuel reach = elim (dec_lt (size * 2) max_output_size) [
    | yes less ↦
        let doubled : min (size * 2) max_output_size ≡ size * 2 = omega arith in
        rw doubled (omega (arith, reach, ap (λ (t : ℕ). size * t) (pow-suc 2 fuel)))
    | no more ↦
        let greatest : min (size * 2) max_output_size ≡ max_output_size = omega (arith, more) in
        rw greatest (omega (arith, power_pos fuel))
  ]

  grow-Inflates :
      (fuel : ℕ) (input output : List ℕ) (size : ℕ)
      → Inflates input output
      → length output ≤ max_output_size
      → size ≤ max_output_size
      → max_output_size ≤ size * 2 ^ fuel
      → grow fuel input size (inflate input size) ≡ stream_end output
  unfolding grow
  grow-Inflates zero input output size law fits within reach =
      rw (law.enough size (omega (arith, fits, reach))) refl
  grow-Inflates (suc fuel) input output size law fits within reach =
      elim (dec_lt size (length output)) [
        | yes less ↦
            let doubled = min (size * 2) max_output_size in
            let below : ltb size max_output_size ≡ true = ground (arith, less, fits) in
            let power = pow-suc 2 fuel in
            let far : max_output_size ≤ doubled * 2 ^ fuel = reaches size fuel reach in
            rw (law.short size less, below)
              (grow-Inflates fuel input output doubled law fits (omega arith) far)
        | no more ↦ rw (law.enough size (omega (arith, more))) refl
      ]

  retry-Inflates :
      (input output : List ℕ) (size : ℕ)
      → Inflates input output
      → length output ≤ max_output_size
      → size ≤ max_output_size
      → max_output_size ≤ size * 2 ^ 24
      → retry input size (inflate input size) ≡ stream_end output
  retry-Inflates input output size law fits within reach = elim (dec_lt size (length output)) [
    | yes less ↦
        ap (retry input size) (law.short size less)
        ∙ ap (grow 24 input size) (sym (law.short size less))
        ∙ grow-Inflates 24 input output size law fits within reach
    | no more ↦ ap (retry input size) (law.enough size (omega (arith, more)))
  ]

  -- Data of at most 64 MiB that `inflate` gives back, from fewer than 2 ^ 32 bytes that are not empty,
  -- with room for the data, and needs more space for with less room, are the decompressed bytes; the
  -- rounds of the loop are enough.
  pub decompress-Inflates :
      (b : ℕ) (bytes output : List ℕ)
      → Inflates (b ∷ bytes) output
      → length output ≤ max_output_size
      → length (b ∷ bytes) < 2 ^ 32
      → deflate_decompress (b ∷ bytes) ≡ some output
  unfolding deflate_decompress
  decompress-Inflates b bytes output law fits small =
      let size = min (length (b ∷ bytes) * 4) max_output_size in
      let count : length (b ∷ bytes) % 2 ^ 32 ≡ length (b ∷ bytes) = omega arith in
      let whole : avail_in (b ∷ bytes) ≡ b ∷ bytes =
        ap (λ (n : ℕ). take n (b ∷ bytes)) count
        ∙ take-all (length (b ∷ bytes)) (b ∷ bytes) (omega arith) in
      ap (λ (t : List ℕ). output_of (retry t size (inflate t size))) whole
      ∙ ap output_of (retry-Inflates (b ∷ bytes) output size law fits (omega arith) (omega arith))
