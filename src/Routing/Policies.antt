-- ===== src/Routing/Policies.antt =====
-- src/core/routing/policies.ts: the plan of a mode, with its overrides, and its revision once the
-- plan of the task is known. A list without profiles makes `toAssignment` throw.
pub mod Assignment
pub mod Privacy
pub mod Total
pub use tomorrowedge.Routing.Policies.Assignment.{
  is_external_provider, has_any_strength, first_of, head_of, runner_assignment, core_strengths,
  core_reason,
}
unfoldable pub use tomorrowedge.Routing.Policies.Assignment.{
  to_assignment, choose_profile, pick, is_privacy_locked_mode, by_mode, assign_role,
}
use tomorrowedge.Prelude.{
  ℕ, String, Bool, true, false, not, ◌&&◌, ◌||◌, Option, none, some, List, [], ◌∷◌, ◌++◌, map, ◌==◌,
  append, cat, has_text, starts_with, includes, any, filter, find, is_some, or_else, if◌then◌else◌,
}
use tomorrowedge.Roles.{AgentRole, role_eq, role_text, has_role}
use tomorrowedge.ControlPlane.Specs.{Attempt, returned, threw}
use tomorrowedge.ControlPlane.Workspace.{trim}
use tomorrowedge.ControlPlane.Attempts.{◌>>=◌}
use tomorrowedge.Routing.Profiles.{
  ModelStrength, has_strength, ModelProfile, RoutingMode, RouteAssignment, RoutingPlan,
  AgentRouteOverride, AgentRouteOverrides, RoutingPlanChange,
}

abbrev not_auto : String → Option String
not_auto value = if value == "" || value == "auto" then none else some value

unfoldable pub normalize_override : Option String → Option String
unfolding trim
normalize_override none = none
normalize_override (some value) = not_auto (trim value)

unfoldable pub has_explicit_override : Option AgentRouteOverride → Bool
unfolding normalize_override
has_explicit_override none = false
has_explicit_override (some o) =
    is_some (normalize_override o.provider) || is_some (normalize_override o.model)

unfoldable pub is_local_provider : String → List ModelProfile → Bool
is_local_provider provider profiles =
    if includes ("mock" ∷ "fixture" ∷ "ollama" ∷ "local_tool" ∷ []) provider
    then true
    else (elim (find (λ candidate. candidate.provider == provider) profiles) [
      | none ↦ false
      | some profile ↦
          has_strength profile.strengths ModelStrength.local
          || has_strength profile.strengths ModelStrength.privacy
    ])

-- `configuredProvider ?? profiles.find(…)?.provider ?? assignment.provider`
abbrev overriding_provider :
    List ModelProfile → RouteAssignment → Option String → Option String → String
overriding_provider profiles assignment (some provider) model = provider
overriding_provider profiles assignment none none = assignment.provider
overriding_provider profiles assignment none (some model) =
    elim (find (λ profile. profile.model == model) profiles) [
      | none ↦ assignment.provider
      | some profile ↦ profile.provider
    ]

abbrev fits_model : Option String → ModelProfile → Bool
fits_model none profile = true
fits_model (some model) profile = profile.model == model

abbrev model_or : Option ModelProfile → String → String
model_or none model = model
model_or (some profile) model = profile.model

-- The override in force, with its provider and its model as they are normalized.
unfoldable pub overridden :
    RoutingMode
    → List ModelProfile
    → RouteAssignment
    → AgentRouteOverride
    → Option String
    → String
    → RouteAssignment
unfolding is_privacy_locked_mode is_local_provider
overridden mode profiles assignment o model provider =
    let matching =
      first_of (find (λ profile. profile.provider == provider && fits_model model profile) profiles)
        (find (λ profile. profile.provider == provider) profiles) in
    if is_privacy_locked_mode mode
      && not (is_local_provider provider profiles)
      && not (is_external_provider provider)
    then record assignment {
      reason = cat (
          assignment.reason
          ∷ "; ignored cloud override "
          ∷ provider
          ∷ "/"
          ∷ or_else model assignment.model
          ∷ " in privacy/local mode"
          ∷ []);
    }
    else record {
      role = assignment.role;
      provider = provider;
      model = or_else model (model_or matching assignment.model);
      reason =
          append (or_else o.reason "user-configured agent route override")
            (if is_some matching then "" else " (provider/model profile not pre-registered)");
    }

unfoldable pub apply_override :
    RouteAssignment → RoutingMode → List ModelProfile → Option AgentRouteOverride → RouteAssignment
apply_override assignment mode profiles none = assignment
apply_override assignment mode profiles (some o) =
    let provider = normalize_override o.provider in
    let model = normalize_override o.model in
    if role_eq assignment.role AgentRole.runner
    then assignment
    else if not (is_some provider) && not (is_some model)
    then assignment
    else overridden mode profiles assignment o model
        (overriding_provider profiles assignment provider model)

abbrev asks_for : Option String → Bool
asks_for none = false
asks_for (some value) = not (value == "") && not (value == "auto")

unfoldable pub core_role_requested : AgentRouteOverrides → Bool
core_role_requested overrides = elim (overrides AgentRole.core) [
  | none ↦ false
  | some o ↦ asks_for o.provider || asks_for o.model
]

abbrev pub default_routing_roles : List AgentRole
default_routing_roles =
    AgentRole.vision ∷ AgentRole.planner ∷ AgentRole.explorer ∷ AgentRole.coder_a
    ∷ AgentRole.coder_b ∷ AgentRole.reviewer ∷ AgentRole.judge ∷ AgentRole.runner
    ∷ AgentRole.repairer ∷ AgentRole.summarizer ∷ []

unfoldable pub assign_roles :
    RoutingMode
    → List ModelProfile
    → AgentRouteOverrides
    → List AgentRole
    → Attempt (List RouteAssignment)
assign_roles mode profiles overrides [] = returned []
assign_roles mode profiles overrides (role ∷ roles) = do
  assignment ← assign_role role mode profiles
  rest ← assign_roles mode profiles overrides roles
  returned (apply_override assignment mode profiles (overrides role) ∷ rest)

abbrev pub offline_fallback : RouteAssignment → RouteAssignment
offline_fallback assignment = record assignment {
  provider = "mock";
  model = "mock-balanced";
  reason = "offline fallback";
}

abbrev pub routing_roles : AgentRouteOverrides → List AgentRole
routing_roles overrides =
    if core_role_requested overrides
    then AgentRole.core ∷ default_routing_roles
    else default_routing_roles

unfoldable pub build_routing_plan :
    RoutingMode → List ModelProfile → AgentRouteOverrides → Attempt RoutingPlan
unfolding assign_roles core_role_requested is_privacy_locked_mode
build_routing_plan mode profiles overrides = do
  assignments ← assign_roles mode profiles overrides (routing_roles overrides)
  returned (record {
    mode = mode;
    privacy_locked = is_privacy_locked_mode mode;
    assignments = assignments;
    fallbacks = map offline_fallback (filter (λ a. not (a.provider == "mock")) assignments);
  })
