-- ===== src/Storage/Columns/Answers.antt =====
-- What the decoders of the columns of operations answer, one call after another.
use automerge_cpp.Prelude.{ℕ, suc, ◌≡◌, refl, ap, ◌∙◌, length}
use automerge_cpp.Prelude.{Bool, Option, none, some, List, [], ◌∷◌}
use automerge_cpp.Types.{Value}
use automerge_cpp.Encoding.Boolean.{BooleanDecoder}
use automerge_cpp.Encoding.Boolean as Boolean
use automerge_cpp.Encoding.Boolean.Reader as Flags
use automerge_cpp.Encoding.Rle.{Codec, RleDecoder}
use automerge_cpp.Encoding.Rle as Rle
use automerge_cpp.Encoding.Rle.Steps as Steps
use automerge_cpp.Encoding.Delta.{DeltaDecoder}
use automerge_cpp.Encoding.Delta as Delta
use automerge_cpp.Encoding.Delta.RoundTrip as Deltas
use automerge_cpp.Storage.Columns.Values.{ValueReader, decode_value_from_columns}
use automerge_cpp.Storage.Columns.ValueRoundTrip.{decode_values}

module _ {A D : Type 0} where
  abbrev continue : (D → List A) → Option A × D → List A
  continue others (none, d) = []
  continue others (some x, d) = x ∷ others d

  -- The first answer, and what is answered behind it.
  abbrev pub First : Option A × D → (D → List A) → A → List A → Type 0
  First answer others x xs = (d' : D) × (answer ≡ (some x, d')) × (others d' ≡ xs)

  First-answer :
      (others : D → List A) (answer : Option A × D) {x : A} {xs : List A}
      → continue others answer ≡ x ∷ xs
      → First answer others x xs
  First-answer others (none, d) h = cc
  First-answer others (some y, d) {x} {xs} h =
      let head : y ≡ x = cc in (d, ap (λ (t : A). (some t, d)) head, cc)

module _ {T : Type 0} (c : Codec T) where
  -- The calls of `next` answer the values.
  abbrev pub Column : RleDecoder T → List (Option T) → Type 0
  Column d xs = Steps.read c (suc (length xs)) d ≡ xs

  pub next-Column :
      (d : RleDecoder T) (x : Option T) (xs : List (Option T))
      → Column d (x ∷ xs)
      → (d' : RleDecoder T) × (Rle.next c d ≡ (some x, d')) × Column d' xs
  unfolding Steps.read
  next-Column d x xs h = First-answer (Steps.read c (suc (length xs))) (Rle.next c d) h

abbrev pub DeltaColumn : DeltaDecoder → List (Option ℕ) → Type 0
DeltaColumn d xs = Deltas.read (suc (length xs)) d ≡ xs

pub next-DeltaColumn :
    (d : DeltaDecoder) (x : Option ℕ) (xs : List (Option ℕ))
    → DeltaColumn d (x ∷ xs)
    → (d' : DeltaDecoder) × (Delta.next d ≡ (some x, d')) × DeltaColumn d' xs
unfolding Deltas.read
next-DeltaColumn d x xs h = First-answer (Deltas.read (suc (length xs))) (Delta.next d) h

abbrev pub FlagColumn : BooleanDecoder → List Bool → Type 0
FlagColumn d xs = Flags.read (suc (length xs)) d ≡ xs

continue-pair :
    {A D : Type 0} (others : D → List A) (answer : Option A × D)
    → continue others answer ≡ elim answer.0 [ none ↦ [] | some v ↦ v ∷ others answer.1 ]
continue-pair others (none, d) = refl
continue-pair others (some v, d) = refl

pub next-FlagColumn :
    (d : BooleanDecoder) (x : Bool) (xs : List Bool)
    → FlagColumn d (x ∷ xs)
    → (d' : BooleanDecoder) × (Boolean.next d ≡ (some x, d')) × FlagColumn d' xs
unfolding Flags.read
next-FlagColumn d x xs h =
    First-answer (Flags.read (suc (length xs))) (Boolean.next d)
      (continue-pair (Flags.read (suc (length xs))) (Boolean.next d) ∙ h)

abbrev pub ValueColumn : ValueReader → List Value → Type 0
ValueColumn r vs = decode_values (length vs) r ≡ vs

pub next-ValueColumn :
    (r : ValueReader) (v : Value) (vs : List Value)
    → ValueColumn r (v ∷ vs)
    → (r' : ValueReader) × (decode_value_from_columns r ≡ (some v, r')) × ValueColumn r' vs
unfolding decode_values
next-ValueColumn r v vs h = First-answer (decode_values (length vs)) (decode_value_from_columns r) h
