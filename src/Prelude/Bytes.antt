-- ===== src/Prelude/Bytes.antt =====
-- `std::string` as the list of its bytes, with a decided equality.
use Prim.Native.Char.{code}
use Prim.Native.Nat.{ℕ, zero, suc, ◌+◌, ◌/◌, ◌%◌}
use Prim.Native.String.{String}
use mathlib.Core.List.{List, [], ◌∷◌}
use mathlib.Core.Logic.{ite}
use mathlib.Core.Path.{refl, ap₂}
use native.Mathlib.Decide.{ℕ_discrete}

abbrev pub Text : Type 0
Text = List ℕ

abbrev pub codes : String → Text
codes String.[] = []
codes (String.◌∷◌ c s) = code c ∷ codes s

-- Equality of `std::string`, by bytes.
unfoldable pub text_dec : Discrete Text
unfolding ℕ_discrete
text_dec [] [] = yes refl
text_dec [] (y ∷ ys) = no (λ p. cc p)
text_dec (x ∷ xs) [] = no (λ p. cc p)
text_dec (x ∷ xs) (y ∷ ys) =
    let rest = text_dec xs ys in
    elim (ℕ_discrete x y) [
      | yes p ↦ elim rest [ yes q ↦ yes (ap₂ ◌∷◌ p q) | no q ↦ no (λ r. q (cc r)) ]
      | no p ↦ no (λ r. p (cc r))
    ]

-- `std::to_string`: the decimal digits of a number that is not negative, by repeated division; a
-- number has at most as many digits as its value and one more.
unfoldable pub decimal : ℕ → ℕ → Text → Text
decimal zero n acc = acc
decimal (suc fuel) n acc =
    let more = decimal fuel (n / 10) ((48 + n % 10) ∷ acc) in
    ite (ℕ_discrete (n / 10) 0) ((48 + n % 10) ∷ acc) more

unfoldable pub to_string : ℕ → Text
to_string n = decimal (suc n) n []
