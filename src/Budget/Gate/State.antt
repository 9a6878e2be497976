-- ===== src/Budget/Gate/State.antt =====
-- The state of the budget gate and its decisions, src/core/budget/budgetGate.ts.
use tomorrowedge.Routing.Profiles.{RouteAssignment}
use Prim.Native.Char.{code}
use tomorrowedge.Prelude.{
  ℕ, ◌+◌, String, Bool, true, false, ◌&&◌, ◌||◌, Option, List, [], ◌∷◌, cat, eqb, leb,
  if◌then◌else◌,
}
use tomorrowedge.Roles.{
  AgentRole, planner, coder_a, reviewer, judge, role_eq, role_text, EventPhase,
}
use tomorrowedge.Budget.Allocator.{Scope}

pub record BudgetReservation : Type 0 where
  pub id : String
  pub role : AgentRole
  pub phase : EventPhase
  pub scope : Scope
  pub consumes_global : Bool
  pub real_provider : Bool
  pub simulated : Bool
  pub committed : Bool
  pub released : Bool

-- `Partial<Record<AgentRole, number>>`, read with `?? 0`
abbrev pub RoleCalls : Type 0
RoleCalls = List (AgentRole × ℕ)

pub record BudgetRuntimeState : Type 0 where
  pub strong_agent_calls_used : ℕ
  pub real_strong_agent_calls_used : ℕ
  pub simulated_strong_agent_calls_used : ℕ
  pub role_calls_used : RoleCalls
  pub blocked_roles : List (AgentRole × String)
  pub reservations : List BudgetReservation

unfoldable pub create_budget_runtime_state : BudgetRuntimeState
create_budget_runtime_state = record {
  strong_agent_calls_used = 0;
  real_strong_agent_calls_used = 0;
  simulated_strong_agent_calls_used = 0;
  role_calls_used = [];
  blocked_roles = [];
  reservations = [];
}

unfoldable pub role_calls : AgentRole → RoleCalls → ℕ
role_calls role [] = 0
role_calls role ((r, n) ∷ calls) = if role_eq r role then n else role_calls role calls

-- `calls[role] = (calls[role] ?? 0) + 1`
unfoldable pub count_role_call : AgentRole → RoleCalls → RoleCalls
count_role_call role [] = (role, 1) ∷ []
count_role_call role ((r, n) ∷ calls) =
    if role_eq r role then (r, n + 1) ∷ calls else (r, n) ∷ count_role_call role calls

pub data GateAction : Type 0 where
  allow fallback block : GateAction

pub record BudgetGateDecision : Type 0 where
  pub role : AgentRole
  pub phase : EventPhase
  pub action : GateAction
  pub reason : String
  pub assignment : RouteAssignment
  pub fallback_assignment : Option RouteAssignment
  pub scope : Scope
  pub consumes_global : Bool
  pub real_provider : Bool
  pub simulated : Bool
  pub estimated_cost_usd : Option ℕ
  pub remaining_calls : ℕ

-- `toLowerCase` of an ASCII letter, and a test of texts after it; the text compared with is in
-- lower case.
abbrev to_lower : ℕ → ℕ
to_lower c = if leb b'A' c && leb c b'Z' then c + 32 else c

lower_starts_with : String → String → Bool
lower_starts_with s String.[] = true
lower_starts_with String.[] (String.◌∷◌ d p) = false
lower_starts_with (String.◌∷◌ c s) (String.◌∷◌ d p) =
    eqb (to_lower (code c)) (code d) && lower_starts_with s p

lower_is : String → String → Bool
lower_is String.[] String.[] = true
lower_is (String.◌∷◌ c s) (String.◌∷◌ d p) = eqb (to_lower (code c)) (code d) && lower_is s p
lower_is _ _ = false

-- `providerReality(provider).simulated`; `realProvider` is its negation.
unfoldable pub is_simulated : String → Bool
unfolding lower_starts_with lower_is
is_simulated provider =
    lower_is provider "mock"
    || lower_is provider "fixture"
    || lower_is provider "local_tool"
    || lower_starts_with provider "fixture:"
    || lower_starts_with provider "mock:"

unfoldable pub native_fallback_assignment : AgentRole → RouteAssignment → RouteAssignment
native_fallback_assignment role assignment = record {
  role = role;
  provider = "local_tool";
  model = cat ("native_" ∷ role_text role ∷ []);
  reason = cat (
      "Budget gate blocked "
      ∷ assignment.provider
      ∷ "/"
      ∷ assignment.model
      ∷ "; using native "
      ∷ role_text role
      ∷ " fallback."
      ∷ []);
}

abbrev pub can_fallback_when_budget_blocked : AgentRole → Bool
can_fallback_when_budget_blocked planner = true
can_fallback_when_budget_blocked coder_a = true
can_fallback_when_budget_blocked reviewer = true
can_fallback_when_budget_blocked judge = true
can_fallback_when_budget_blocked _ = false
