-- ===== src/Routing/Policies/Privacy/Overrides.antt =====
-- Which overrides the lock lets through, and the choice of a local profile.
use tomorrowedge.Prelude.{
  find-some, find-mem, ◌≡◌, refl, sym, ap, inl, inr, String, Bool, true, false, not, ◌&&◌, Option,
  none, some, List, [], ◌∷◌, find, is_some, or_else, Bool-cases, Option-cases, Memᴰ,
}
use tomorrowedge.Roles.{AgentRole, role_eq, has_role}
use tomorrowedge.ControlPlane.Specs.{returned}
use tomorrowedge.ControlPlane.Attempts.{eq_of_returned}
use tomorrowedge.Routing.Profiles.{
  ModelStrength, ModelProfile, RoutingMode, RouteAssignment, AgentRouteOverride,
}
use tomorrowedge.Routing.Policies.{
  is_external_provider, has_any_strength, choose_profile, to_assignment, pick,
  is_privacy_locked_mode, is_local_provider, overridden, apply_override, normalize_override,
  overriding_provider,
}

-- A profile for which the local modes look.
abbrev pub is_local_profile : ModelProfile → Bool
is_local_profile = has_any_strength (ModelStrength.local ∷ ModelStrength.privacy ∷ [])

-- A provider that is local by its name or by a profile, or an external agent.
pub data KeepsLocal (profiles : List ModelProfile) (provider : String) : Type 0 where
  named : is_local_provider provider profiles ≡ true → KeepsLocal profiles provider
  external : is_external_provider provider ≡ true → KeepsLocal profiles provider
  profiled :
      (p : ModelProfile)
      → Memᴰ p profiles
      → is_local_profile p ≡ true
      → p.provider ≡ provider
      → KeepsLocal profiles provider

pub pick-role :
    (role : AgentRole) (profiles : List ModelProfile) (strengths : List ModelStrength)
    (reason : String) (a : RouteAssignment)
    → pick role profiles strengths reason ≡ returned a
    → a.role ≡ role
unfolding pick to_assignment
pick-role role profiles strengths reason a =
    elim (Option-cases (choose_profile role profiles strengths)) [
      | inl e ↦ rw e (λ h. absurd (cc h))
      | inr (p, e) ↦ rw e (λ h. ap (λ (r : RouteAssignment). r.role) (sym (eq_of_returned h)))
    ]

both : (a b : Bool) → (a && b) ≡ true → b ≡ true
both true b h = h
both false b h = absurd (cc h)

module _ (profiles : List ModelProfile) (q : ModelProfile) (listed : Memᴰ q profiles)
    (is_local : is_local_profile q ≡ true) where
  choose-local :
      (role : AgentRole)
      → (p : ModelProfile) × (choose_profile role profiles
            (ModelStrength.local ∷ ModelStrength.privacy ∷ [])
          ≡ some p)
        × Memᴰ p profiles
        × (is_local_profile p ≡ true)
  unfolding choose_profile
  choose-local role =
      let fits =
        λ (c : ModelProfile). has_role (or_else c.default_roles []) role && is_local_profile c in
      elim (Option-cases (find fits profiles)) [
        | inr (p, e) ↦ let (m, k) = find-some fits profiles p e in rw e (p, refl, m, both _ _ k)
        | inl e ↦
            let (p, f) = find-mem is_local_profile profiles q listed is_local in
            let (m, k) = find-some is_local_profile profiles p f in rw (e, f) (p, refl, m, k)
      ]

  pub pick-KeepsLocal :
      (role : AgentRole) (reason : String) (a : RouteAssignment)
      → pick role profiles (ModelStrength.local ∷ ModelStrength.privacy ∷ []) reason ≡ returned a
      → KeepsLocal profiles a.provider
  unfolding pick to_assignment
  pick-KeepsLocal role reason a =
      let (p, e, m, k) = choose-local role in
      rw e (λ h. profiled p m k (ap (λ (r : RouteAssignment). r.provider) (eq_of_returned h)))

-- Of a role other than the core role: the assignment keeps to local providers.
abbrev pub KeepsRole : List ModelProfile → RouteAssignment → Type 0
KeepsRole profiles a = role_eq a.role AgentRole.core ≡ false → KeepsLocal profiles a.provider

pub local_tool_named :
    (profiles : List ModelProfile) → is_local_provider "local_tool" profiles ≡ true
unfolding is_local_provider
local_tool_named profiles = refl

-- An override that is not local changes the reason only.
overridden-KeepsRole :
    (mode : RoutingMode) (profiles : List ModelProfile) (a : RouteAssignment)
    (o : AgentRouteOverride) (model : Option String) (provider : String)
    → is_privacy_locked_mode mode ≡ true
    → KeepsRole profiles a
    → KeepsRole profiles (overridden mode profiles a o model provider)
unfolding overridden
overridden-KeepsRole mode profiles a o model provider locked kept =
    elim (Bool-cases (is_local_provider provider profiles)) [
      | inl e ↦ rw (KeepsRole, overridden, locked, e) (λ other. named e)
      | inr e ↦ elim (Bool-cases (is_external_provider provider)) [
        | inl f ↦ rw (KeepsRole, overridden, locked, e, f) (λ other. external f)
        | inr f ↦ rw (KeepsRole, overridden, locked, e, f) kept
      ]
    ]

pub apply_override-KeepsRole :
    (mode : RoutingMode) (profiles : List ModelProfile) (a : RouteAssignment)
    (o : Option AgentRouteOverride)
    → is_privacy_locked_mode mode ≡ true
    → KeepsRole profiles a
    → KeepsRole profiles (apply_override a mode profiles o)
unfolding apply_override
apply_override-KeepsRole mode profiles a none locked kept = kept
apply_override-KeepsRole mode profiles a (some o) locked kept =
    let provider = normalize_override o.provider in
    let model = normalize_override o.model in
    elim (Bool-cases (role_eq a.role AgentRole.runner)) [
      | inl e ↦ rw (KeepsRole, apply_override, e) kept
      | inr e ↦ elim (Bool-cases (not (is_some provider) && not (is_some model))) [
        | inl f ↦ rw (KeepsRole, apply_override, e, f) kept
        | inr f ↦
            rw (apply_override, e, f)
              (overridden-KeepsRole mode profiles a o model
                (overriding_provider profiles a provider model) locked kept)
      ]
    ]
