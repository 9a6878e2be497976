-- ===== src/ControlPlane/Attempts.antt =====
-- Calls that may throw and change nothing, one behind the other.
use tomorrowedge.Prelude.{◌≡◌, refl}
use tomorrowedge.ControlPlane.Specs.{Attempt, returned, threw}

infixl 5 ◌>>=◌
abbrev pub ◌>>=◌ {ℓ κ} : {A : Type ℓ} {B : Type κ} → Attempt A → (A → Attempt B) → Attempt B
threw message >>= next = threw message
returned a >>= next = next a

pub >>=-eq-returned {ℓ κ} :
    {A : Type ℓ} {B : Type κ} (m : Attempt A) (f : A → Attempt B) {b : B}
    → (m >>= f) ≡ returned b
    → (a : A) × (m ≡ returned a) × (f a ≡ returned b)
>>=-eq-returned (returned a) f h = (a, refl, h)
>>=-eq-returned (threw e) f h = absurd (cc h)

pub eq_of_returned {ℓ} : {A : Type ℓ} {a b : A} → returned a ≡ returned b → a ≡ b
eq_of_returned h = cc h
