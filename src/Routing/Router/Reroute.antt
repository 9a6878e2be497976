-- ===== src/Routing/Router/Reroute.antt =====
-- rerouteRoutingPlanForPlan of src/core/routing/policies.ts.
use tomorrowedge.Prelude.{
  String, Bool, true, false, not, ◌&&◌, ◌||◌, List, [], ◌∷◌, ◌++◌, map, ◌==◌, cat, starts_with,
  filter, if◌then◌else◌,
}
use tomorrowedge.Roles.{AgentRole, role_eq}
use tomorrowedge.ControlPlane.Specs.{Attempt, returned}
use tomorrowedge.ControlPlane.Attempts.{◌>>=◌}
use tomorrowedge.Orchestration.RoleGraph.{RiskLevel}
use tomorrowedge.Planning.Plan.{TaskType, Plan}
use tomorrowedge.Routing.Profiles.{
  ModelStrength, ModelProfile, RouteAssignment, RoutingPlan, AgentRouteOverrides, RoutingPlanChange,
}
use tomorrowedge.Routing.Policies.{pick, has_explicit_override, offline_fallback}

abbrev risk_text : RiskLevel → String
risk_text RiskLevel.low = "low"
risk_text RiskLevel.medium = "medium"
risk_text RiskLevel.high = "high"

abbrev task_text : TaskType → String
task_text TaskType.bugfix = "bugfix"
task_text TaskType.feature = "feature"
task_text TaskType.refactor = "refactor"
task_text TaskType.test = "test"
task_text TaskType.docs = "docs"
task_text TaskType.analysis = "analysis"
task_text TaskType.unknown = "unknown"

abbrev pub is_risky : Plan → Bool
is_risky plan = elim plan.risk_level [ RiskLevel.high ↦ true | _ ↦ plan.debate_recommended ]

abbrev pub saves_cost : TaskType → Bool
saves_cost TaskType.analysis = true
saves_cost TaskType.docs = true
saves_cost _ = false

abbrev pub is_feature : TaskType → Bool
is_feature TaskType.feature = true
is_feature _ = false

abbrev pub is_refactor : TaskType → Bool
is_refactor TaskType.refactor = true
is_refactor _ = false

-- The chain of cases that gives an assignment its next one.
unfoldable pub next_assignment :
    Plan → List ModelProfile → Bool → RouteAssignment → Attempt RouteAssignment
next_assignment plan profiles has_image_inputs a =
    let is = role_eq a.role in
    if has_image_inputs && is AgentRole.vision
    then pick a.role profiles
        (ModelStrength.vision ∷ ModelStrength.ocr ∷ ModelStrength.perception ∷ [])
        "post-plan reroute: image input requires a perception-capable model"
    else if is_risky plan && (is AgentRole.reviewer || is AgentRole.judge)
    then pick a.role profiles (ModelStrength.reasoning ∷ ModelStrength.review ∷ []) (
        cat (
          "post-plan reroute: "
          ∷ risk_text plan.risk_level
          ∷ "-risk "
          ∷ task_text plan.task_type
          ∷ " task reserves stronger review/judgment"
          ∷ []))
    else if is_risky plan && is AgentRole.coder_b
    then pick a.role profiles (ModelStrength.coding ∷ ModelStrength.reasoning ∷ [])
        "post-plan reroute: high-risk task keeps an alternate reasoning-capable implementation path"
    else if saves_cost plan.task_type
        && (is AgentRole.coder_a || is AgentRole.coder_b || is AgentRole.repairer)
    then pick a.role profiles (ModelStrength.cheap ∷ ModelStrength.fast ∷ []) (
        cat (
          "post-plan reroute: "
          ∷ task_text plan.task_type
          ∷ " task can use cost-efficient execution roles"
          ∷ []))
    else if is_feature plan.task_type && is AgentRole.coder_a
    then pick a.role profiles (ModelStrength.coding ∷ ModelStrength.long_context ∷ [])
        "post-plan reroute: feature work prefers coding plus enough context"
    else if is_refactor plan.task_type && (is AgentRole.explorer || is AgentRole.coder_a)
    then pick a.role profiles (ModelStrength.long_context ∷ ModelStrength.coding ∷ [])
        "post-plan reroute: refactor work prefers dependency context and coding strength"
    else returned a

abbrev pub is_fixed : AgentRouteOverrides → RouteAssignment → Bool
is_fixed overrides a = a.provider == "local_tool" || has_explicit_override (overrides a.role)

unfoldable pub rerouted_one :
    Plan
    → List ModelProfile
    → AgentRouteOverrides
    → Bool
    → RouteAssignment
    → Attempt RouteAssignment
unfolding has_explicit_override
rerouted_one plan profiles overrides has_image_inputs a =
    if is_fixed overrides a then returned a else next_assignment plan profiles has_image_inputs a

abbrev pub is_changed : RouteAssignment → RouteAssignment → Bool
is_changed a b =
    not (a.provider == b.provider) || not (a.model == b.model) || not (a.reason == b.reason)

abbrev change_to : RouteAssignment → RouteAssignment → List RoutingPlanChange
change_to a next =
    if is_changed next a
    then record { role = a.role; from = a; to = next; reason = next.reason } ∷ []
    else []

unfoldable pub reroute_all :
    Plan
    → List ModelProfile
    → AgentRouteOverrides
    → Bool
    → List RouteAssignment
    → Attempt (List RouteAssignment × List RoutingPlanChange)
reroute_all plan profiles overrides has_image_inputs [] = returned ([], [])
reroute_all plan profiles overrides has_image_inputs (a ∷ rest) = do
  next ← rerouted_one plan profiles overrides has_image_inputs a
  (assignments, changes) ← reroute_all plan profiles overrides has_image_inputs rest
  returned (next ∷ assignments, change_to a next ++ changes)

abbrev may_fall_back : RouteAssignment → Bool
may_fall_back a = not (a.provider == "mock") && not (starts_with a.provider "external:")

unfoldable pub reroute_routing_plan :
    RoutingPlan
    → Plan
    → List ModelProfile
    → AgentRouteOverrides
    → Bool
    → Attempt (RoutingPlan × List RoutingPlanChange)
reroute_routing_plan current plan profiles overrides has_image_inputs =
    if current.privacy_locked
    then returned (current, [])
    else reroute_all plan profiles overrides has_image_inputs current.assignments >>= λ r.
        returned (
          record current {
            assignments = r.0;
            fallbacks = map offline_fallback (filter may_fall_back r.0);
          },
          r.1,
        )
