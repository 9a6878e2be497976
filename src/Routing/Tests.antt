-- ===== src/Routing/Tests.antt =====
-- Tests of the routing, src/core/routing, and the theorems at concrete inputs.
use tomorrowedge.Prelude.{false, ◌≡◌, refl, true, none, some, List, [], ◌∷◌, ◌++◌, Memᴰ, map}
use tomorrowedge.Roles.{AgentRole}
use tomorrowedge.ControlPlane.Specs.{returned}
use tomorrowedge.Planning.Plan.{TaskType, Plan}
use tomorrowedge.Routing.Profiles.{
  ModelStrength, ModelProfile, RoutingMode, RouteAssignment, RoutingPlan, AgentRouteOverride,
  AgentRouteOverrides, RoutingPlanChange,
}
use tomorrowedge.Routing.Policies.{
  assign_role, pick, apply_override, choose_profile, build_routing_plan, overridden,
  runner_assignment, offline_fallback, core_role_requested, is_privacy_locked_mode,
  normalize_override, is_local_provider,
}
use tomorrowedge.Routing.Defaults.{openrouter_profile, editable_default_profiles}
use tomorrowedge.Routing.Externals.{
  external_agent_registry_from_config, registered, external_assignment_for,
}
use tomorrowedge.Routing.Configured.{
  profiles_from_config, enabled_profiles, when_enabled, configured_model, provider_model_env_name,
}
use tomorrowedge.Orchestration.RoleGraph.{RiskLevel}
use tomorrowedge.Routing.Policies.Total.{HasRole}
use tomorrowedge.Routing.Router.{
  validate_external_assignment, RouterConfig, profiles_of, new_router, assignment_for,
  apply_policy_routing_preference, reroute_after_plan, validated_plan,
}
use tomorrowedge.Routing.Router.Privacy.{IsHeld, made, IsHeld-KeepsLocal}
use tomorrowedge.Routing.Router.Total.{IsHeld-IsTotal}
use tomorrowedge.Routing.Policies.Privacy.{KeepsLocal, core-outside_lock}

abbrev cloud : ModelProfile
cloud = record {
  provider = "openrouter";
  model = "gpt";
  label = "cloud";
  context_window = none;
  input_price_per_m_tok = none;
  output_price_per_m_tok = none;
  latency_class = none;
  strengths = ModelStrength.planning ∷ ModelStrength.reasoning ∷ [];
  default_roles = some (AgentRole.planner ∷ []);
}

abbrev on_disk : ModelProfile
on_disk = record {
  provider = "ollama";
  model = "local-auto";
  label = "local";
  context_window = none;
  input_price_per_m_tok = none;
  output_price_per_m_tok = none;
  latency_class = none;
  strengths = ModelStrength.local ∷ ModelStrength.privacy ∷ [];
  default_roles = none;
}

abbrev profiles : List ModelProfile
profiles = cloud ∷ on_disk ∷ []

abbrev no_overrides : AgentRouteOverrides
no_overrides role = none

abbrev cloud_core : AgentRouteOverride
cloud_core = record { provider = some "openrouter"; model = none; reason = none }

abbrev core_overrides : AgentRouteOverrides
core_overrides AgentRole.core = some cloud_core
core_overrides _ = none

abbrev local_assignment : AgentRole → RouteAssignment
local_assignment role = record {
  role = role;
  provider = "ollama";
  model = "local-auto";
  reason = "privacy/local mode requires local-first routing";
}

abbrev core_assignment : RouteAssignment
core_assignment = record {
  role = AgentRole.core;
  provider = "openrouter";
  model = "gpt";
  reason =
      "optional core role prefers high-level reasoning and supervision; ignored cloud override openrouter/gpt in privacy/local mode";
}

abbrev usual_assignments : List RouteAssignment
usual_assignments =
    map local_assignment (
      AgentRole.vision ∷ AgentRole.planner ∷ AgentRole.explorer ∷ AgentRole.coder_a
      ∷ AgentRole.coder_b ∷ AgentRole.reviewer ∷ AgentRole.judge ∷ [])
    ++ runner_assignment
      ∷ local_assignment AgentRole.repairer
      ∷ local_assignment AgentRole.summarizer
      ∷ []

abbrev locked_plan : List RouteAssignment → RoutingPlan
locked_plan assignments = record {
  mode = RoutingMode.privacy;
  privacy_locked = true;
  assignments = assignments;
  fallbacks = map offline_fallback assignments;
}

built_without_core :
    build_routing_plan RoutingMode.privacy profiles no_overrides
    ≡ returned (locked_plan usual_assignments)
unfolding build_routing_plan assign_role pick apply_override
built_without_core = refl

-- A router of a configuration with a cloud provider.
abbrev openrouter_config : RouterConfig
openrouter_config = record {
  mode = RoutingMode.privacy;
  environment = record { process_env = λ name. none; to_upper_case = λ s. s };
  providers = ("openrouter", record { enabled = true; base_url = ""; model = " gpt " }) ∷ [];
  overrides = no_overrides;
  external_agents =
      (
        "reviewer-1",
        record {
          enabled = true;
          name = none;
          transport = "mcp";
          trust_level = "high";
          roles = AgentRole.reviewer ∷ [];
        },
      )
      ∷ [];
}

configured :
    profiles_of openrouter_config
    ≡ record openrouter_profile { model = "gpt" } ∷ editable_default_profiles
unfolding profiles_from_config enabled_profiles when_enabled configured_model
configured = refl

custom_env_name :
    provider_model_env_name openrouter_config.environment "MY-HOST.2" ≡ "MY_HOST_2_MODEL"
unfolding provider_model_env_name
custom_env_name = refl

locked_router : new_router openrouter_config ≡ returned (locked_plan usual_assignments)
unfolding new_router build_routing_plan assign_role pick profiles_from_config enabled_profiles
    validated_plan apply_override
locked_router = refl

abbrev held : IsHeld openrouter_config (locked_plan usual_assignments)
held = made (locked_plan usual_assignments) locked_router

IsHeld-KeepsLocal_example : KeepsLocal (profiles_of openrouter_config) "ollama"
unfolding is_privacy_locked_mode
IsHeld-KeepsLocal_example =
    IsHeld-KeepsLocal openrouter_config refl (locked_plan usual_assignments)
      (local_assignment AgentRole.vision) held (Memᴰ.head refl) refl

-- A reviewer that is bound to an agent outside of the repository.
bound_reviewer :
    (validate_external_assignment openrouter_config
      (record (local_assignment AgentRole.reviewer) { provider = "external:reviewer-1" })).reason
    ≡ "external MCP agent role binding (mcp; trust=high)"
unfolding validate_external_assignment external_agent_registry_from_config registered
    external_assignment_for
bound_reviewer = refl

abbrev task : Plan
task = record {
  goal = "explain";
  constraints = [];
  risk_level = RiskLevel.high;
  task_type = TaskType.docs;
  workflow_kind = none;
  requires_patch_workflow = none;
  allowed_phases = none;
  acceptance_criteria = none;
  steps = [];
  task_graph = none;
  expected_files = none;
  verification_commands = none;
  debate_recommended = false;
  reason_for_debate = none;
}

IsHeld-IsTotal_example :
    HasRole AgentRole.planner (assignment_for (locked_plan usual_assignments) AgentRole.planner)
    × ((r : RoutingPlan × List RoutingPlanChange) × (apply_policy_routing_preference
            openrouter_config
            (locked_plan usual_assignments)
            (some RoutingMode.cheap)
          ≡ returned r))
    × ((r : RoutingPlan × List RoutingPlanChange) × (reroute_after_plan openrouter_config
            (locked_plan usual_assignments)
            task
            true
          ≡ returned r))
IsHeld-IsTotal_example =
    IsHeld-IsTotal openrouter_config (locked_plan usual_assignments) AgentRole.planner
      (some RoutingMode.cheap) task true held (Memᴰ.tail (Memᴰ.head refl))

-- The core role at a cloud provider in a plan that is locked.
built_with_core :
    build_routing_plan RoutingMode.privacy profiles core_overrides
    ≡ returned (locked_plan (core_assignment ∷ usual_assignments))
unfolding build_routing_plan overridden normalize_override assign_role pick apply_override
built_with_core = refl

core-outside_lock_example :
    (a : RouteAssignment) × Memᴰ a (core_assignment ∷ usual_assignments)
    × (a.role ≡ AgentRole.core)
    × (a.provider ≡ "openrouter")
unfolding core_role_requested normalize_override is_local_provider choose_profile
    is_privacy_locked_mode
core-outside_lock_example =
    core-outside_lock RoutingMode.privacy profiles core_overrides cloud_core "openrouter" cloud refl
      refl refl refl refl refl refl (locked_plan (core_assignment ∷ usual_assignments))
      built_with_core
