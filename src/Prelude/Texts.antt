-- ===== src/Prelude/Texts.antt =====
-- Texts as code points and payloads as bytes: both are lists of numbers, compared as a whole.
use Prim.Native.Nat.{ℕ}
use Prim.Native.Char.{code}
use Prim.Native.String.{String}
use mathlib.Core.Path.{◌≡◌, refl, ap₂}
use mathlib.Core.Bool.{Bool, true, false}
use mathlib.Core.Logic.{ite, ◌≢◌, ◌↔◌}
use mathlib.Core.List.{List, [], ◌∷◌}
use native.Mathlib.Decide.{ℕ_discrete}
use native.Mathlib.Omega.{arith}

abbrev pub Text : Type 0
Text = List ℕ

abbrev pub Bytes : Type 0
Bytes = List ℕ

-- Shut in proofs, where a split on it yields the equation or its negation.
unfoldable pub text_dec : Discrete Text
unfolding ℕ_discrete
text_dec [] [] = yes refl
text_dec [] (y ∷ ys) = no (λ e. cc)
text_dec (x ∷ xs) [] = no (λ e. cc)
text_dec (x ∷ xs) (y ∷ ys) = elim (ℕ_discrete x y) [
  | no differ ↦ no (λ e. differ (cc))
  | yes same ↦ elim (text_dec xs ys) [
    | no differ ↦ no (λ e. differ (cc))
    | yes rest ↦ yes (ap₂ (λ a l. a ∷ l) same rest)
  ]
]

infix 50 ◌=?◌
abbrev pub ◌=?◌ : Text → Text → Bool
a =? b = ite (text_dec a b) true false

pub =?_refl : (a : Text) → (a =? a) ≡ true
=?_refl a = ground arith

-- The code points of a literal.
abbrev pub codes : String → Text
codes String.[] = []
codes (String.◌∷◌ c s) = code c ∷ codes s

pub =?_ne : (a b : Text) → a ≢ b → (a =? b) ≡ false
=?_ne a b h = ground arith

pub =?_iff : (a b : Text) → ((a =? b) ≡ true) ↔ (a ≡ b)
=?_iff a b = ground arith
