-- ===== src/ControlPlane/Effects.antt =====
-- Calls that change the outside world and may throw, as the runtime awaits them one by one.
use tomorrowedge.Prelude.{◌≡◌, refl, ◌⊎◌, inl, inr}
use tomorrowedge.ControlPlane.Specs.{Attempt, returned, threw}

abbrev pub Effect {ℓ} : Type 0 → Type ℓ → Type ℓ
Effect W A = W → W × Attempt A

module _ {ℓ} {W : Type 0} {A : Type ℓ} where
  abbrev pub pure : A → Effect W A
  pure a w = (w, returned a)

  -- A call that throws nothing.
  abbrev pub total : (W → W × A) → Effect W A
  total call w = let (w', a) = call w in (w', returned a)

  -- What is returned satisfies `P`; nothing is claimed of a throw.
  abbrev pub OnReturn {κ} : (A → Type κ) → W × Attempt A → Type κ
  OnReturn P (w, returned a) = P a
  OnReturn P (w, threw message) = Unit

abbrev pub run_next {ℓ κ} :
    {W : Type 0} {A : Type ℓ} {B : Type κ} → W → Attempt A → (A → Effect W B) → W × Attempt B
run_next w (returned a) f = f a w
run_next w (threw message) f = (w, threw message)

infixl 5 ◌>>=◌ ◌>>◌
abbrev pub ◌>>=◌ {ℓ κ} :
    {W : Type 0} {A : Type ℓ} {B : Type κ} → Effect W A → (A → Effect W B) → Effect W B
◌>>=◌ m f w = let (w', outcome) = m w in run_next w' outcome f

abbrev pub ◌>>◌ {ℓ κ} :
    {W : Type 0} {A : Type ℓ} {B : Type κ} → Effect W A → Effect W B → Effect W B
m >> n = m >>= λ _. n

-- The rule for a call: whatever it returns, what follows keeps to `P`.
pub bind-OnReturn {ℓ κ ν} :
    {W : Type 0} {A : Type ℓ} {B : Type κ} (P : B → Type ν) (m : Effect W A) (f : A → Effect W B)
    (w : W)
    → ((a : A) (w' : W) → OnReturn P (f a w'))
    → OnReturn P ((m >>= f) w)
bind-OnReturn P m f w k = go (m w)
  where
    go : (r : _ × Attempt _) → OnReturn P (run_next r.0 r.1 f)
    go (w', returned a) = k a w'
    go (w', threw message) = tt

pub Attempt-cases {ℓ} :
    {A : Type ℓ} (r : Attempt A)
    → ((a : A) × (r ≡ returned a)) ⊎ ((message : tomorrowedge.Prelude.String) × (r ≡ threw message))
Attempt-cases (returned a) = inl (a, refl)
Attempt-cases (threw message) = inr (message, refl)
