-- ===== src/Routing/Router/Total.antt =====
-- No operation of a router throws, and each plan that it holds has an assignment for each role that
-- is routed, src/core/routing/router.ts.
pub mod Steps
use tomorrowedge.Routing.Router.Total.Steps.{
  roles_of, HasRoles, if-HasRoles, validated-roles, reroute_routing_plan-HasRoles,
}
use tomorrowedge.Prelude.{
  ◌≡◌, refl, sym, ap, ◌∙◌, subst, inl, inr, String, Bool, true, false, not, ◌&&◌, ◌||◌, Option,
  none, some, List, [], ◌∷◌, map, ◌==◌, find, if◌then◌else◌, Bool-cases, Option-cases, Memᴰ,
}
use tomorrowedge.Roles.{AgentRole, role_eq, role_eq_iff, has_role}
use tomorrowedge.ControlPlane.Specs.{Attempt, returned}
use tomorrowedge.ControlPlane.Attempts.{eq_of_returned}
use tomorrowedge.Planning.Plan.{Plan}
use tomorrowedge.Routing.Profiles.{
  ModelStrength, ModelProfile, RoutingMode, RouteAssignment, RoutingPlan, RoutingPlanChange,
  AgentRouteOverrides,
}
use tomorrowedge.Routing.Defaults.{default_ollama_profile}
use tomorrowedge.Routing.Configured.Laws.{default_ollama-listed}
use tomorrowedge.Routing.Policies.{default_routing_roles, routing_roles, core_role_requested}
use tomorrowedge.Routing.Policies.Total.{HasRole, if-HasRole, pick-HasRole, build-HasRoles}
use tomorrowedge.Routing.Externals.{
  ExternalAgentProfile, external_agent_id, external_assignment_for, bound_to,
}
use tomorrowedge.Routing.Router.{
  RouterConfig, profiles_of, is_fixed, is_risky, saves_cost, is_feature, is_refactor,
  next_assignment, rerouted_one, reroute_all, reroute_routing_plan, validate_external_assignment,
  validated_plan, new_router, apply_policy_routing_preference, reroute_after_plan, mode_is,
  assignment_for, agent_of,
}
use tomorrowedge.Routing.Router.Privacy.{IsHeld, made, preferred, rerouted}

module _ (config : RouterConfig) where
  listed : Memᴰ default_ollama_profile (profiles_of config)
  listed = default_ollama-listed config.environment config.providers

  -- A router is made, whatever its configuration is.
  new_router-HasRoles :
      (p : RoutingPlan) × (new_router config ≡ returned p)
      × (roles_of p.assignments ≡ routing_roles config.overrides)
  unfolding new_router validated_plan
  new_router-HasRoles =
      let (plan, e, are) =
        build-HasRoles (profiles_of config) default_ollama_profile listed config.mode
          config.overrides in
      rw (new_router, e) (_, refl, validated-roles config plan.assignments ∙ are)

  preference-HasRoles :
      (p : RoutingPlan) (preference : Option RoutingMode)
      → roles_of p.assignments ≡ routing_roles config.overrides
      → HasRoles
          (routing_roles config.overrides)
          (apply_policy_routing_preference config p preference)
  unfolding apply_policy_routing_preference validated_plan
  preference-HasRoles p none k = ((p, []), refl, k)
  preference-HasRoles p (some preference) k =
      let (plan, e, are) =
        build-HasRoles (profiles_of config) default_ollama_profile listed preference
          config.overrides in
      if-HasRoles _ (mode_is preference RoutingMode.balanced || p.privacy_locked) _ _
        ((p, []), refl, k)
        (if-HasRoles _
          (mode_is config.mode RoutingMode.china && not (mode_is preference RoutingMode.privacy)) _
          _ ((p, []), refl, k) (rw e (_, refl, validated-roles config plan.assignments ∙ are)))

  after_plan-HasRoles :
      (p : RoutingPlan) (plan : Plan) (has_image_inputs : Bool)
      → HasRoles (roles_of p.assignments) (reroute_after_plan config p plan has_image_inputs)
  unfolding reroute_after_plan validated_plan
  after_plan-HasRoles p plan has_image_inputs =
      let (r, e, are) =
        reroute_routing_plan-HasRoles plan (profiles_of config) default_ollama_profile listed
          config.overrides has_image_inputs p in
      rw (reroute_after_plan, e) (_, refl, validated-roles config r.0.assignments ∙ are)

  IsHeld-HasRoles :
      (p : RoutingPlan) → IsHeld config p → roles_of p.assignments ≡ routing_roles config.overrides
  IsHeld-HasRoles p (made _ h) =
      let (made_plan, e, are) = new_router-HasRoles in
      subst (λ (x : RoutingPlan). roles_of x.assignments ≡ routing_roles config.overrides)
        (eq_of_returned (sym e ∙ h)) are
  IsHeld-HasRoles q (preferred p _ preference changes held h) =
      let (r, e, are) = preference-HasRoles p preference (IsHeld-HasRoles p held) in
      ap (λ (x : RoutingPlan × List RoutingPlanChange). roles_of x.0.assignments)
        (eq_of_returned (sym h ∙ e))
      ∙ are
  IsHeld-HasRoles q (rerouted p _ plan has_image_inputs changes held h) =
      let (r, e, are) = after_plan-HasRoles p plan has_image_inputs in
      ap (λ (x : RoutingPlan × List RoutingPlanChange). roles_of x.0.assignments)
        (eq_of_returned (sym h ∙ e))
      ∙ are
      ∙ IsHeld-HasRoles p held

find-role :
    (role : AgentRole) (assignments : List RouteAssignment)
    → Memᴰ role (roles_of assignments)
    → (a : RouteAssignment) × (find (λ (x : RouteAssignment). role_eq x.role role) assignments
        ≡ some a)
      × (a.role ≡ role)
find-role role [] m = elim m [ ]
find-role role (a ∷ rest) m = elim (Bool-cases (role_eq a.role role)) [
  | inl e ↦ rw e (a, refl, (role_eq_iff a.role role).0 e)
  | inr e ↦ rw e (find-role role rest (not_first m e))
]
  where
    not_first :
        {r : AgentRole} {rs : List AgentRole}
        → Memᴰ role (r ∷ rs)
        → role_eq r role ≡ false
        → Memᴰ role rs
    not_first {r} (Memᴰ.head e) f = absurd (cc (sym ((role_eq_iff r role).1 (sym e)) ∙ f))
    not_first (Memᴰ.tail m) f = m

requested-routed :
    (overrides : AgentRouteOverrides) (role : AgentRole)
    → Memᴰ role default_routing_roles
    → Memᴰ role (routing_roles overrides)
requested-routed overrides role m = elim (Bool-cases (core_role_requested overrides)) [
  | inl e ↦ rw e (Memᴰ.tail m)
  | inr e ↦ rw e m
]

-- Whatever the configuration is, and after any number of routing preferences and revisions, a router
-- has an assignment for each of the default roles, and neither a further preference nor a further
-- revision throws.
pub IsHeld-IsTotal :
    (config : RouterConfig) (p : RoutingPlan) (role : AgentRole) (preference : Option RoutingMode)
    (plan : Plan) (has_image_inputs : Bool)
    → IsHeld config p
    → Memᴰ role default_routing_roles
    → HasRole role (assignment_for p role)
      × ((r : RoutingPlan × List RoutingPlanChange) × (apply_policy_routing_preference config p
              preference
            ≡ returned r))
      × ((r : RoutingPlan × List RoutingPlanChange) × (reroute_after_plan config p plan
              has_image_inputs
            ≡ returned r))
unfolding assignment_for
IsHeld-IsTotal config p role preference plan has_image_inputs held m =
    let roles = IsHeld-HasRoles config p held in
    let (a, e, is) =
      find-role role p.assignments
        (subst (Memᴰ role) (sym roles) (requested-routed config.overrides role m)) in
    let (r, f, _) = preference-HasRoles config p preference roles in
    let (s, g, _) = after_plan-HasRoles config p plan has_image_inputs in
    (rw (assignment_for, e) (a, refl, is), (r, f), (s, g))
