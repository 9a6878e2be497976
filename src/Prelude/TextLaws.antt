-- ===== src/Prelude/TextLaws.antt =====
-- Laws of joined texts.
use Prim.Native.Char.{Char}
use Prim.Native.String.{String}
use mathlib.Core.Path.{◌≡◌, refl, ap}
use native.Mathlib.Omega.{arith}
use mathlib.Core.Bool.{true, false}
use mathlib.Core.Logic.{inl, inr}
use text.Mathlib.Text.{◌==◌}
use text.Mathlib.TextEquality.{eq_iff}
use tomorrowedge.Prelude.Tests.{Bool-cases}
use tomorrowedge.Prelude.Text.{append, starts_with}

pub text_assoc : (s t u : String) → append (append s t) u ≡ append s (append t u)
text_assoc String.[] t u = refl
text_assoc (String.◌∷◌ c s) t u = ap (String.◌∷◌ c) (text_assoc s t u)

pub append-empty : (s : String) → append s "" ≡ s
append-empty String.[] = refl
append-empty (String.◌∷◌ c s) = ap (String.◌∷◌ c) (append-empty s)

pub cons-eq-empty : (c : Char) (s : String) → (String.◌∷◌ c s == "") ≡ false
cons-eq-empty c s = elim (Bool-cases (String.◌∷◌ c s == "")) [
  | inl e ↦ absurd (cc ((eq_iff _ _).0 e))
  | inr e ↦ e
]

pub starts_with-append : (p rest : String) → starts_with (append p rest) p ≡ true
starts_with-append String.[] rest = refl
starts_with-append (String.◌∷◌ c p) rest = ground (arith, starts_with-append p rest)
