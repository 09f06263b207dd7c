-- ===== src/Encoding/Boolean/Writer.antt =====
-- What the encoder of booleans writes for a list of values: the counts of its runs.
use automerge_cpp.Prelude.{
  ℕ, suc, ◌+◌, ◌^◌, ◌≤◌, ◌<◌, ◌≡◌, refl, ◌∙◌, arith, if◌then◌else◌, ◌==◌, length,
}
use automerge_cpp.Prelude.{Bool, true, false, not, List, [], ◌∷◌, ◌++◌, append_assoc, append-nil}
use automerge_cpp.Encoding.Leb128.{encode_uleb128}
use automerge_cpp.Encoding.Leb128.Unsigned.{encode_uleb128-behind}
use automerge_cpp.Encoding.Boolean.{BooleanEncoder, same_value, append, finish, new_encoder}

-- The values of a column, appended in order.
unfoldable pub append_all : List Bool → BooleanEncoder → BooleanEncoder
unfolding append
append_all [] e = e
append_all (v ∷ vs) e = append_all vs (append v e)

unfoldable pub encode : List Bool → List ℕ
encode vs = (finish (append_all vs new_encoder)).output

abbrev pub code : ℕ → List ℕ
code n = encode_uleb128 n []

code-append : (n : ℕ) (output : List ℕ) → encode_uleb128 n output ≡ output ++ code n
code-append n output = encode_uleb128-behind n output

-- What the encoder writes in the end: with n values b counted, and `vs` still to come.
pub runs : Bool → ℕ → List Bool → List ℕ
unfolding same_value
runs b n [] = if n == 0 then [] else code n
runs b n (v ∷ vs) =
    let longer = runs b (suc n) vs in
    let other = code n ++ runs v 1 vs in if same_value v b then longer else other

append-count : (v : Bool) (e : BooleanEncoder) → (append v e).count ≤ suc e.count
unfolding append
append-count v e = ground arith

append-runs :
    (v : Bool) (vs : List Bool) (e : BooleanEncoder)
    → suc e.count < 2 ^ 64
    → (append v e).output ++ runs (append v e).current_value (append v e).count vs
      ≡ e.output ++ runs e.current_value e.count (v ∷ vs)
unfolding append runs
append-runs v vs e h =
    ground (arith, code-append e.count e.output, append_assoc e.output (code e.count) (runs v 1 vs))

pub finish-append_all :
    (vs : List Bool) (e : BooleanEncoder)
    → e.count + length vs < 2 ^ 64
    → (finish (append_all vs e)).output ≡ e.output ++ runs e.current_value e.count vs
unfolding append_all finish runs
finish-append_all [] e h = ground (arith, code-append e.count e.output, append-nil e.output)
finish-append_all (v ∷ vs) e h =
    finish-append_all vs (append v e) (omega (arith, append-count v e))
    ∙ append-runs v vs e (omega arith)

pub same_value-eq : (v b : Bool) → same_value v b ≡ true → v ≡ b
unfolding same_value
same_value-eq true true h = refl
same_value-eq true false h = cc
same_value-eq false true h = cc
same_value-eq false false h = refl

pub same_value-not : (v b : Bool) → same_value v b ≡ false → not b ≡ v
unfolding same_value
same_value-not true true h = cc
same_value-not true false h = refl
same_value-not false true h = refl
same_value-not false false h = cc

pub runs-last : (b : Bool) (n : ℕ) → runs b (suc n) [] ≡ code (suc n) ++ []
unfolding runs
runs-last b n = ground (arith, append-nil (code (suc n)))

pub runs-same :
    (v b : Bool) (n : ℕ) (vs : List Bool)
    → same_value v b ≡ true
    → runs b n (v ∷ vs) ≡ runs b (suc n) vs
unfolding runs
runs-same v b n vs h = rw h refl

pub runs-other :
    (v b : Bool) (n : ℕ) (vs : List Bool)
    → same_value v b ≡ false
    → runs b n (v ∷ vs) ≡ code n ++ runs v 1 vs
unfolding runs
runs-other v b n vs h = rw h refl

pub runs-nothing : runs false 0 [] ≡ []
unfolding runs
runs-nothing = refl
