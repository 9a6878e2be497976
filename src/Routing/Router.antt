-- ===== src/Routing/Router.antt =====
-- The revision of a plan, `rerouteRoutingPlanForPlan` of src/core/routing/policies.ts, and
-- `ModelRouter` of src/core/routing/router.ts with the external agents of
-- src/core/externalAgents/externalAgentRouter.ts.
pub mod Reroute
pub mod Privacy
pub mod Total
pub use tomorrowedge.Routing.Router.Reroute.{is_changed}
unfoldable pub use tomorrowedge.Routing.Router.Reroute.{
  next_assignment, rerouted_one, reroute_all, reroute_routing_plan,
}
use tomorrowedge.Routing.Router.Reroute.{is_risky, saves_cost, is_feature, is_refactor, is_fixed}
use tomorrowedge.Prelude.{
  String, Bool, true, false, not, ◌&&◌, ◌||◌, Option, none, some, List, [], ◌∷◌, ◌++◌, map, ◌==◌,
  append, cat, strip, starts_with, filter, find, if◌then◌else◌,
}
use tomorrowedge.Roles.{AgentRole, role_eq, role_text, has_role}
use tomorrowedge.ControlPlane.Specs.{Attempt, returned, threw}
use tomorrowedge.ControlPlane.Attempts.{◌>>=◌}
use tomorrowedge.Orchestration.RoleGraph.{RiskLevel}
use tomorrowedge.Planning.Plan.{TaskType, Plan}
use tomorrowedge.Routing.Profiles.{
  ModelStrength, ModelProfile, RoutingMode, RouteAssignment, RoutingPlan, AgentRouteOverrides,
  RoutingPlanChange,
}
use tomorrowedge.Routing.Externals.{
  ExternalAgents, ExternalAgentProfile, registered, external_agent_registry_from_config,
  external_agent_id, external_assignment_for, bound_to,
}
use tomorrowedge.Routing.Configured.{Environment, Providers, profiles_from_config}
use tomorrowedge.Routing.Policies.{
  pick, has_explicit_override, offline_fallback, build_routing_plan,
}

pub record RouterConfig : Type 0 where
  pub mode : RoutingMode
  pub environment : Environment
  pub providers : Providers
  pub overrides : AgentRouteOverrides
  pub external_agents : ExternalAgents

-- `externalAgentRegistryFromConfig(config).get(id)`
abbrev pub agent_of : RouterConfig → String → Option ExternalAgentProfile
agent_of config = registered (external_agent_registry_from_config config.external_agents)

-- `this.profiles` of the router, which holds them from its making on.
abbrev pub profiles_of : RouterConfig → List ModelProfile
profiles_of config = profiles_from_config config.environment config.providers

unfoldable pub validate_external_assignment : RouterConfig → RouteAssignment → RouteAssignment
unfolding external_assignment_for
validate_external_assignment config a = elim (external_agent_id a.provider) [
  | none ↦ a
  | some id ↦ if id == "" then a else bound_to a id (agent_of config id)
]

-- What each change of the router's plan ends with.
unfoldable pub validated_plan : RouterConfig → RoutingPlan → RoutingPlan
unfolding validate_external_assignment
validated_plan config plan = record plan {
  assignments = map (validate_external_assignment config) plan.assignments;
  fallbacks = filter (λ a. not (starts_with a.provider "external:")) plan.fallbacks;
}

-- `new ModelRouter(config)`, as the plan that it holds.
unfoldable pub new_router : RouterConfig → Attempt RoutingPlan
new_router config = build_routing_plan config.mode (profiles_of config) config.overrides >>= λ plan.
    returned (validated_plan config plan)

unfoldable pub assignment_for : RoutingPlan → AgentRole → Attempt RouteAssignment
assignment_for plan role =
    elim (find (λ (a : RouteAssignment). role_eq a.role role) plan.assignments) [
      | none ↦ threw (append "No model assignment for role " (role_text role))
      | some a ↦ returned a
    ]

unfoldable pub fallback_for : RoutingPlan → AgentRole → Option RouteAssignment
fallback_for plan role = find (λ (a : RouteAssignment). role_eq a.role role) plan.fallbacks

abbrev change_from : String → RouteAssignment → Option RouteAssignment → List RoutingPlanChange
change_from reason to none = []
change_from reason to (some from) =
    if is_changed from to
    then record { role = to.role; from = from; to = to; reason = reason } ∷ []
    else []

unfoldable pub route_changes : RoutingPlan → List RouteAssignment → String → List RoutingPlanChange
route_changes current [] reason = []
route_changes current (to ∷ rest) reason =
    change_from reason to
      (find (λ (a : RouteAssignment). role_eq a.role to.role) current.assignments)
    ++ route_changes current rest reason

abbrev mode_text : RoutingMode → String
mode_text RoutingMode.cheap = "cheap"
mode_text RoutingMode.balanced = "balanced"
mode_text RoutingMode.quality = "quality"
mode_text RoutingMode.local = "local"
mode_text RoutingMode.privacy = "privacy"
mode_text RoutingMode.china = "china"

abbrev mode_is : RoutingMode → RoutingMode → Bool
mode_is a b = mode_text a == mode_text b

-- `applyPolicyRoutingPreference`, with the preference of the policy, if there is one.
unfoldable pub apply_policy_routing_preference :
    RouterConfig → RoutingPlan → Option RoutingMode → Attempt (RoutingPlan × List RoutingPlanChange)
apply_policy_routing_preference config plan none = returned (plan, [])
apply_policy_routing_preference config plan (some preference) =
    if mode_is preference RoutingMode.balanced || plan.privacy_locked
    then returned (plan, [])
    else if mode_is config.mode RoutingMode.china && not (mode_is preference RoutingMode.privacy)
    then returned (plan, [])
    else build_routing_plan preference (profiles_of config) config.overrides >>= λ next.
        let next_plan = validated_plan config next in
        returned (
          next_plan,
          route_changes plan next_plan.assignments
              (append "policy routingPreference=" (mode_text preference)),
        )

unfoldable pub reroute_after_plan :
    RouterConfig → RoutingPlan → Plan → Bool → Attempt (RoutingPlan × List RoutingPlanChange)
reroute_after_plan config held plan has_image_inputs =
    reroute_routing_plan held plan (profiles_of config) config.overrides has_image_inputs >>= λ r.
    returned (validated_plan config r.0, r.1)
