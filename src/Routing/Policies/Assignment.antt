-- ===== src/Routing/Policies/Assignment.antt =====
-- The assignment of a role by the mode, src/core/routing/policies.ts.
use tomorrowedge.Prelude.{
  String, Bool, true, false, ◌&&◌, Option, none, some, List, [], ◌∷◌, ◌==◌, has_text, starts_with,
  includes, any, find, or_else, if◌then◌else◌,
}
use tomorrowedge.Roles.{AgentRole, role_eq, role_text, has_role}
use tomorrowedge.ControlPlane.Specs.{Attempt, returned, threw}
use tomorrowedge.Routing.Profiles.{
  ModelStrength, has_strength, ModelProfile, RoutingMode, RouteAssignment,
}

abbrev pub is_external_provider : String → Bool
is_external_provider provider = starts_with provider "external:"

abbrev pub has_any_strength : List ModelStrength → ModelProfile → Bool
has_any_strength strengths candidate = any (has_strength candidate.strengths) strengths

-- `a ?? b`
abbrev pub first_of {ℓ} : {A : Type ℓ} → Option A → Option A → Option A
first_of none b = b
first_of (some a) b = some a

abbrev pub head_of {ℓ} : {A : Type ℓ} → List A → Option A
head_of [] = none
head_of (x ∷ xs) = some x

unfoldable pub to_assignment : AgentRole → Option ModelProfile → String → Attempt RouteAssignment
to_assignment role none reason = threw "Cannot read properties of undefined (reading 'provider')"
to_assignment role (some profile) reason =
    returned
      (record { role = role; provider = profile.provider; model = profile.model; reason = reason })

unfoldable pub choose_profile :
    AgentRole → List ModelProfile → List ModelStrength → Option ModelProfile
choose_profile role profiles strengths =
    first_of
      (find
        (λ candidate.
          has_role (or_else candidate.default_roles []) role
          && has_any_strength strengths candidate)
        profiles)
      (first_of (find (has_any_strength strengths) profiles)
        (first_of (find (λ candidate. candidate.provider == "mock") profiles) (head_of profiles)))

unfoldable pub pick :
    AgentRole → List ModelProfile → List ModelStrength → String → Attempt RouteAssignment
unfolding choose_profile to_assignment
pick role profiles strengths reason =
    to_assignment role (choose_profile role profiles strengths) reason

unfoldable pub is_privacy_locked_mode : RoutingMode → Bool
is_privacy_locked_mode RoutingMode.privacy = true
is_privacy_locked_mode RoutingMode.local = true
is_privacy_locked_mode _ = false

abbrev balanced_strengths : AgentRole → List ModelStrength
balanced_strengths role =
    if has_text (role_text role) "coder"
    then ModelStrength.coding ∷ ModelStrength.fast ∷ []
    else ModelStrength.reasoning ∷ ModelStrength.planning ∷ ModelStrength.review ∷ []

-- `assignRole` behind the runner, the core role, the locked modes and the vision role.
unfoldable pub by_mode : AgentRole → RoutingMode → List ModelProfile → Attempt RouteAssignment
by_mode role RoutingMode.cheap profiles =
    pick role profiles (ModelStrength.cheap ∷ ModelStrength.fast ∷ [])
      "cheap mode minimizes cost and latency"
by_mode role RoutingMode.quality profiles =
    pick role profiles (ModelStrength.reasoning ∷ ModelStrength.review ∷ ModelStrength.coding ∷ [])
      "quality mode prefers stronger reasoning and review"
by_mode role RoutingMode.china profiles =
    elim (find (λ profile. includes ("mimo" ∷ "deepseek" ∷ "kimi" ∷ []) profile.provider)
      profiles) [
        | some profile ↦ to_assignment role (some profile) "china mode provider preference"
        | none ↦ pick role profiles (balanced_strengths role) "balanced role-conditioned default"
      ]
by_mode role _ profiles =
    pick role profiles (balanced_strengths role) "balanced role-conditioned default"

abbrev pub runner_assignment : RouteAssignment
runner_assignment = record {
  role = AgentRole.runner;
  provider = "local_tool";
  model = "shell";
  reason = "runner is a local tool, not a model";
}

abbrev pub core_strengths : List ModelStrength
core_strengths = ModelStrength.reasoning ∷ ModelStrength.planning ∷ ModelStrength.review ∷ []

abbrev pub core_reason : String
core_reason = "optional core role prefers high-level reasoning and supervision"

unfoldable pub assign_role : AgentRole → RoutingMode → List ModelProfile → Attempt RouteAssignment
assign_role role mode profiles =
    if role_eq role AgentRole.core
    then pick role profiles core_strengths core_reason
    else if role_eq role AgentRole.runner
    then returned runner_assignment
    else if is_privacy_locked_mode mode
    then pick role profiles (ModelStrength.local ∷ ModelStrength.privacy ∷ [])
        "privacy/local mode requires local-first routing"
    else if role_eq role AgentRole.vision
    then pick role profiles
        (ModelStrength.vision ∷ ModelStrength.ocr ∷ ModelStrength.perception ∷ [])
        "image input requires perception before coding"
    else by_mode role mode profiles
