-- ===== src/Encoding/Boolean/Maybe.antt =====
-- `MaybeBooleanEncoder`: optional booleans, as a column of flags and a column of values.
use automerge_cpp.Prelude.{
  ℕ, ◌+◌, ◌^◌, ◌<◌, ◌≡◌, refl, ap, sym, ◌∙◌, arith, length, map, Bool, true, false, Option, none,
  some, List, [], ◌∷◌,
}
use automerge_cpp.Encoding.Boolean.{BooleanEncoder, new_encoder, new_decoder}
use automerge_cpp.Encoding.Boolean as Boolean
use automerge_cpp.Encoding.Boolean.Writer.{append_all, encode}
use automerge_cpp.Encoding.Boolean.Reader.{read}
use automerge_cpp.Encoding.Boolean.RoundTrip.{read-encode}

pub record MaybeBooleanEncoder : Type 0 where
  pub has_encoder : BooleanEncoder
  pub value_encoder : BooleanEncoder

abbrev new_maybe_encoder : MaybeBooleanEncoder
new_maybe_encoder = record { has_encoder = new_encoder; value_encoder = new_encoder }

unfoldable pub append : Bool → MaybeBooleanEncoder → MaybeBooleanEncoder
unfolding Boolean.append
append value e = record {
  has_encoder = Boolean.append true e.has_encoder;
  value_encoder = Boolean.append value e.value_encoder;
}

unfoldable pub append_null : MaybeBooleanEncoder → MaybeBooleanEncoder
unfolding Boolean.append
append_null e = record {
  has_encoder = Boolean.append false e.has_encoder;
  value_encoder = Boolean.append false e.value_encoder;
}

unfoldable pub finish : MaybeBooleanEncoder → MaybeBooleanEncoder
unfolding Boolean.finish
finish e = record {
  has_encoder = Boolean.finish e.has_encoder;
  value_encoder = Boolean.finish e.value_encoder;
}

-- The values of a column with nulls, appended in order.
unfoldable pub append_options : List (Option Bool) → MaybeBooleanEncoder → MaybeBooleanEncoder
unfolding append append_null
append_options [] e = e
append_options (none ∷ vs) e = append_options vs (append_null e)
append_options (some v ∷ vs) e = append_options vs (append v e)

abbrev pub encode_options : List (Option Bool) → MaybeBooleanEncoder
encode_options vs = finish (append_options vs new_maybe_encoder)

abbrev pub is_some : Option Bool → Bool
is_some none = false
is_some (some v) = true

abbrev pub or_false : Option Bool → Bool
or_false none = false
or_false (some v) = v

has-append_options :
    (vs : List (Option Bool)) (e : MaybeBooleanEncoder)
    → (append_options vs e).has_encoder ≡ append_all (map is_some vs) e.has_encoder
unfolding append_options append append_null append_all
has-append_options [] e = refl
has-append_options (none ∷ vs) e = has-append_options vs (append_null e)
has-append_options (some v ∷ vs) e = has-append_options vs (append v e)

values-append_options :
    (vs : List (Option Bool)) (e : MaybeBooleanEncoder)
    → (append_options vs e).value_encoder ≡ append_all (map or_false vs) e.value_encoder
unfolding append_options append append_null append_all
values-append_options [] e = refl
values-append_options (none ∷ vs) e = values-append_options vs (append_null e)
values-append_options (some v ∷ vs) e = values-append_options vs (append v e)

length-map : (f : Option Bool → Bool) (vs : List (Option Bool)) → length (map f vs) ≡ length vs
length-map f [] = refl
length-map f (v ∷ vs) = omega (arith, length-map f vs)

-- The decoders of the two columns of fewer than 2 ^ 64 optional booleans read back, in as many calls
-- or more, which of them are there, and the values of those with false for the others.
pub read-encode_options :
    (vs : List (Option Bool)) (k : ℕ)
    → length vs < 2 ^ 64
    → (read (length vs + k) (new_decoder (encode_options vs).has_encoder.output) ≡ map is_some vs)
      × (read (length vs + k) (new_decoder (encode_options vs).value_encoder.output)
          ≡ map or_false vs)
unfolding finish encode
read-encode_options vs k h =
    let column : (f : Option Bool → Bool)
        → read (length vs + k) (new_decoder (encode (map f vs))) ≡ map f vs =
      λ f.
        ap (λ (t : ℕ). read (t + k) (new_decoder (encode (map f vs)))) (sym (length-map f vs))
        ∙ read-encode (map f vs) k (omega (arith, length-map f vs)) in
    (
      rw (has-append_options vs new_maybe_encoder) (column is_some),
      rw (values-append_options vs new_maybe_encoder) (column or_false),
    )
