-- ===== src/Routing/Router/Total/Steps.antt =====
-- The steps of a router keep the roles of its plan.
use tomorrowedge.Prelude.{
  ◌≡◌, refl, inl, inr, String, Bool, true, false, ◌&&◌, ◌||◌, Option, none, some, List, [], ◌∷◌,
  map, ◌==◌, if◌then◌else◌, Bool-cases, Option-cases, Memᴰ,
}
use tomorrowedge.Roles.{AgentRole, role_eq, has_role}
use tomorrowedge.ControlPlane.Specs.{Attempt, returned}
use tomorrowedge.Planning.Plan.{Plan}
use tomorrowedge.Routing.Profiles.{
  ModelStrength, ModelProfile, RouteAssignment, RoutingPlan, RoutingPlanChange, AgentRouteOverrides,
}
use tomorrowedge.Routing.Policies.Total.{HasRole, if-HasRole, pick-HasRole}
use tomorrowedge.Routing.Externals.{
  ExternalAgentProfile, external_agent_id, external_assignment_for, bound_to,
}
use tomorrowedge.Routing.Router.{
  RouterConfig, is_fixed, is_risky, saves_cost, is_feature, is_refactor, next_assignment,
  rerouted_one, reroute_all, reroute_routing_plan, validate_external_assignment, agent_of,
}

abbrev pub roles_of : List RouteAssignment → List AgentRole
roles_of = map (λ (a : RouteAssignment). a.role)

-- A call that returns a plan with assignments for the roles, in their order.
abbrev pub HasRoles : List AgentRole → Attempt (RoutingPlan × List RoutingPlanChange) → Type 0
HasRoles roles m =
    (r : RoutingPlan × List RoutingPlanChange) × (m ≡ returned r)
    × (roles_of r.0.assignments ≡ roles)

pub if-HasRoles :
    (roles : List AgentRole) (b : Bool) (m n : Attempt (RoutingPlan × List RoutingPlanChange))
    → HasRoles roles m
    → HasRoles roles n
    → HasRoles roles (if b then m else n)
if-HasRoles roles true m n h k = h
if-HasRoles roles false m n h k = k

bound-role :
    (a : RouteAssignment) (id : String) (profile : Option ExternalAgentProfile)
    → (bound_to a id profile).role ≡ a.role
unfolding external_assignment_for
bound-role a id none = refl
bound-role a id (some profile) = elim (Bool-cases (has_role profile.allowed_roles a.role)) [
  | inl e ↦ rw e refl
  | inr e ↦ rw e refl
]

validate-role :
    (config : RouterConfig) (a : RouteAssignment)
    → (validate_external_assignment config a).role ≡ a.role
unfolding validate_external_assignment
validate-role config a = elim (Option-cases (external_agent_id a.provider)) [
  | inl e ↦ rw (validate_external_assignment, e) refl
  | inr (id, e) ↦ elim (Bool-cases (id == "")) [
    | inl f ↦ rw (validate_external_assignment, e, f) refl
    | inr f ↦ rw (validate_external_assignment, e, f) (bound-role a id (agent_of config id))
  ]
]

pub validated-roles :
    (config : RouterConfig) (assignments : List RouteAssignment)
    → roles_of (map (validate_external_assignment config) assignments) ≡ roles_of assignments
validated-roles config [] = refl
validated-roles config (a ∷ rest) = λ i. validate-role config a i ∷ validated-roles config rest i

module _ (plan : Plan) (profiles : List ModelProfile) (q : ModelProfile) (listed : Memᴰ q profiles)
    (overrides : AgentRouteOverrides) (has_image_inputs : Bool) where
  next_assignment-HasRole :
      (a : RouteAssignment) → HasRole a.role (next_assignment plan profiles has_image_inputs a)
  unfolding next_assignment
  next_assignment-HasRole a =
      let picked = λ (strengths : List ModelStrength) (reason : String).
        pick-HasRole profiles q listed a.role strengths reason in
      let is = role_eq a.role in
      if-HasRole a.role (has_image_inputs && is AgentRole.vision) _ _ (picked _ _) (
        if-HasRole a.role (is_risky plan && (is AgentRole.reviewer || is AgentRole.judge)) _ _
          (picked _ _)
          (if-HasRole a.role (is_risky plan && is AgentRole.coder_b) _ _ (picked _ _) (
            if-HasRole a.role
              (saves_cost plan.task_type
                && (is AgentRole.coder_a || is AgentRole.coder_b || is AgentRole.repairer))
              _ _ (picked _ _)
              (if-HasRole a.role (is_feature plan.task_type && is AgentRole.coder_a) _ _
                (picked _ _)
                (if-HasRole a.role
                  (is_refactor plan.task_type && (is AgentRole.explorer || is AgentRole.coder_a)) _
                  _ (picked _ _) (a, refl, refl))))))

  rerouted_one-HasRole :
      (a : RouteAssignment)
      → HasRole a.role (rerouted_one plan profiles overrides has_image_inputs a)
  unfolding rerouted_one
  rerouted_one-HasRole a =
      if-HasRole a.role (is_fixed overrides a) _ _ (a, refl, refl) (next_assignment-HasRole a)

  reroute_all-HasRoles :
      (assignments : List RouteAssignment)
      → (r : List RouteAssignment × List RoutingPlanChange) × (reroute_all plan profiles overrides
            has_image_inputs assignments
          ≡ returned r)
        × (roles_of r.0 ≡ roles_of assignments)
  unfolding reroute_all
  reroute_all-HasRoles [] = (([], []), refl, refl)
  reroute_all-HasRoles (a ∷ rest) =
      let (next, e, is) = rerouted_one-HasRole a in
      let (r, f, are) = reroute_all-HasRoles rest in
      rw (reroute_all, e, f) (_, refl, λ i. is i ∷ are i)

  pub reroute_routing_plan-HasRoles :
      (p : RoutingPlan)
      → HasRoles
          (roles_of p.assignments)
          (reroute_routing_plan p plan profiles overrides has_image_inputs)
  unfolding reroute_routing_plan
  reroute_routing_plan-HasRoles p =
      let (r, e, are) = reroute_all-HasRoles p.assignments in
      if-HasRoles _ p.privacy_locked _ _ ((p, []), refl, refl) (rw e (_, refl, are))
