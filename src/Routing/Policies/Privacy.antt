-- ===== src/Routing/Policies/Privacy.antt =====
-- What the privacy lock of src/core/routing/policies.ts keeps out, and what it does not.
pub mod Overrides
pub use tomorrowedge.Routing.Policies.Privacy.Overrides.{
  is_local_profile, KeepsLocal, named, external,
}
use tomorrowedge.Routing.Policies.Privacy.Overrides.{
  pick-role, pick-KeepsLocal, KeepsRole, local_tool_named, apply_override-KeepsRole,
}
use tomorrowedge.Prelude.{
  find-some, find-mem, ◌≡◌, refl, sym, ap, ◌∙◌, subst, inl, inr, String, Bool, true, false, not,
  ◌&&◌, Option, none, some, List, [], ◌∷◌, find, is_some, or_else, Bool-cases, Option-cases, All,
  All-mem, Memᴰ,
}
use tomorrowedge.Roles.{AgentRole, role_eq, has_role}
use tomorrowedge.ControlPlane.Specs.{returned}
use tomorrowedge.ControlPlane.Attempts.{>>=-eq-returned, eq_of_returned}
use tomorrowedge.Routing.Profiles.{
  ModelStrength, ModelProfile, RoutingMode, RouteAssignment, RoutingPlan, AgentRouteOverride,
  AgentRouteOverrides,
}
use tomorrowedge.Routing.Policies.{
  is_external_provider, has_any_strength, choose_profile, to_assignment, pick,
  is_privacy_locked_mode, assign_role, is_local_provider, overridden, apply_override, assign_roles,
  build_routing_plan, routing_roles, normalize_override, overriding_provider, core_strengths,
  core_reason, core_role_requested, default_routing_roles,
}

module _ (mode : RoutingMode) (profiles : List ModelProfile) (q : ModelProfile)
    (locked : is_privacy_locked_mode mode ≡ true) (listed : Memᴰ q profiles)
    (is_local : is_local_profile q ≡ true) where
  assign_role-KeepsRole :
      (role : AgentRole) (a : RouteAssignment)
      → assign_role role mode profiles ≡ returned a
      → KeepsRole profiles a
  unfolding assign_role
  assign_role-KeepsRole role a = elim (Bool-cases (role_eq role AgentRole.core)) [
    | inl e ↦ rw e (λ h other.
        let same = pick-role role profiles core_strengths core_reason a h in
        absurd (cc (sym e ∙ ap (λ r. role_eq r AgentRole.core) (sym same) ∙ other)))
    | inr e ↦ elim (Bool-cases (role_eq role AgentRole.runner)) [
      | inl r ↦
          rw (e, r)
            (λ h other. named (
              subst (λ (b : RouteAssignment). is_local_provider b.provider profiles ≡ true)
                (eq_of_returned h) (local_tool_named profiles)))
      | inr r ↦ rw (e, r, locked) (λ h other. pick-KeepsLocal profiles q listed is_local role _ a h)
    ]
  ]

  assign_roles-KeepsRole :
      (overrides : AgentRouteOverrides) (roles : List AgentRole)
      (assignments : List RouteAssignment)
      → assign_roles mode profiles overrides roles ≡ returned assignments
      → All (KeepsRole profiles) assignments
  unfolding assign_roles
  assign_roles-KeepsRole overrides [] assignments h =
      subst (All (KeepsRole profiles)) (eq_of_returned h) tt
  assign_roles-KeepsRole overrides (role ∷ roles) assignments h =
      let (a, e, k) = >>=-eq-returned (assign_role role mode profiles) _ h in
      let (rest, f, l) = >>=-eq-returned (assign_roles mode profiles overrides roles) _ k in
      subst (All (KeepsRole profiles)) (eq_of_returned l) (
        apply_override-KeepsRole mode profiles a (overrides role) locked
            (assign_role-KeepsRole role a e),
        assign_roles-KeepsRole overrides roles rest f,
      )

  -- In the privacy and the local mode, with a local profile in the list, every role but the core
  -- role is assigned to a provider that is local by its name or by a profile, or to an external
  -- agent, whatever the overrides ask for.
  pub plan-KeepsLocal :
      (overrides : AgentRouteOverrides) (plan : RoutingPlan) (a : RouteAssignment)
      → build_routing_plan mode profiles overrides ≡ returned plan
      → Memᴰ a plan.assignments
      → role_eq a.role AgentRole.core ≡ false
      → KeepsLocal profiles a.provider
  unfolding build_routing_plan
  plan-KeepsLocal overrides plan a h m other =
      let (assignments, e, k) =
        >>=-eq-returned (assign_roles mode profiles overrides (routing_roles overrides)) _ h in
      let same = ap (λ (p : RoutingPlan). p.assignments) (eq_of_returned k) in
      All-mem (KeepsRole profiles) assignments
        (assign_roles-KeepsRole overrides (routing_roles overrides) assignments e)
        (subst (Memᴰ a) (sym same) m) other

pub build-locked :
    (mode : RoutingMode) (profiles : List ModelProfile) (overrides : AgentRouteOverrides)
    (plan : RoutingPlan)
    → build_routing_plan mode profiles overrides ≡ returned plan
    → plan.privacy_locked ≡ is_privacy_locked_mode mode
unfolding build_routing_plan
build-locked mode profiles overrides plan h =
    let (assignments, e, k) =
      >>=-eq-returned (assign_roles mode profiles overrides (routing_roles overrides)) _ h in
    ap (λ (p : RoutingPlan). p.privacy_locked) (sym (eq_of_returned k))

-- The core role is outside of the lock.
module _ (mode : RoutingMode) (profiles : List ModelProfile) (overrides : AgentRouteOverrides)
    (o : AgentRouteOverride) (provider : String) (q : ModelProfile)
    (locked : is_privacy_locked_mode mode ≡ true) (asked : overrides AgentRole.core ≡ some o)
    (requested : core_role_requested overrides ≡ true)
    (wanted : normalize_override o.provider ≡ some provider)
    (not_local : is_local_provider provider profiles ≡ false)
    (not_external : is_external_provider provider ≡ false)
    (chosen : choose_profile AgentRole.core profiles core_strengths ≡ some q) where
  core_assignment :
      (a : RouteAssignment)
      → assign_role AgentRole.core mode profiles ≡ returned a
      → (a.role ≡ AgentRole.core) × (a.provider ≡ q.provider)
  unfolding assign_role pick to_assignment
  core_assignment a = rw chosen (λ h. (
    ap (λ (r : RouteAssignment). r.role) (sym (eq_of_returned h)),
    ap (λ (r : RouteAssignment). r.provider) (sym (eq_of_returned h)),
  ))

  refused_override :
      (a : RouteAssignment) (model : Option String)
      → (a.role ≡ AgentRole.core) × (a.provider ≡ q.provider)
      → ((overridden mode profiles a o model provider).role ≡ AgentRole.core)
        × ((overridden mode profiles a o model provider).provider ≡ q.provider)
  unfolding overridden
  refused_override a model is = rw (overridden, locked, not_local, not_external) is

  core_overridden :
      (a : RouteAssignment)
      → (a.role ≡ AgentRole.core) × (a.provider ≡ q.provider)
      → ((apply_override a mode profiles (overrides AgentRole.core)).role ≡ AgentRole.core)
        × ((apply_override a mode profiles (overrides AgentRole.core)).provider ≡ q.provider)
  unfolding apply_override
  core_overridden a is =
      let no_runner : role_eq a.role AgentRole.runner ≡ false =
        ap (λ r. role_eq r AgentRole.runner) is.0 in
      rw (asked, apply_override, no_runner, wanted)
        (refused_override a (normalize_override o.model) is)

  -- Where the core role is asked for with a provider that the lock of the privacy or the local mode
  -- refuses, the plan has it at the provider of the profile that `chooseProfile` picks for it, local
  -- or not: the first with one of the strengths reasoning, planning and review that has core among
  -- its default roles, else the first with one of these strengths, else the mock profile, else the
  -- first of all. The documentation says of the refused providers that the route stays local.
  pub core-outside_lock :
      (plan : RoutingPlan)
      → build_routing_plan mode profiles overrides ≡ returned plan
      → (a : RouteAssignment) × Memᴰ a plan.assignments
        × (a.role ≡ AgentRole.core)
        × (a.provider ≡ q.provider)
  unfolding build_routing_plan assign_roles
  core-outside_lock plan = rw requested (λ h.
      let (assignments, e, k) =
        >>=-eq-returned
          (assign_roles mode profiles overrides (AgentRole.core ∷ default_routing_roles)) _ h in
      let (a, f, l) = >>=-eq-returned (assign_role AgentRole.core mode profiles) _ e in
      let (rest, g, m) =
        >>=-eq-returned (assign_roles mode profiles overrides default_routing_roles) _ l in
      let b = apply_override a mode profiles (overrides AgentRole.core) in
      let (role_is, provider_is) = core_overridden a (core_assignment a f) in
      let same = ap (λ (p : RoutingPlan). p.assignments) (eq_of_returned k) in
      (b, subst (Memᴰ b) (eq_of_returned m ∙ same) (Memᴰ.head refl), role_is, provider_is))
