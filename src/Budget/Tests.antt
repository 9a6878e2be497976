-- ===== src/Budget/Tests.antt =====
-- The budget on small inputs: a reviewer call, a scope of two plans with one call left.
use tomorrowedge.Prelude.{
  ℕ, ◌≡◌, unique, refl, ◌↔◌, ◌+◌, true, false, none, some, List, [], ◌∷◌, length, arith, All, show,
  ◌⊎◌,
}
use tomorrowedge.Roles.{AgentRole, reviewer, judge, coder_b}
use tomorrowedge.Budget.Allocator.{
  AllocationInput, default_strong_agent_budget, allocate_strong_agent_call,
}
use tomorrowedge.Budget.Allocator.Laws.{IsAllowed, allocate-allowed_iff}
use tomorrowedge.Budget.Gate.{
  BudgetRuntimeState, ModelCall, pre_judge_debate, live_advisory, create_budget_runtime_state,
  evaluate_role_invocation, evaluate_model_call_invocation, reserve_role_call, commit_role_call,
  release_role_call, is_simulated, update_at, native_fallback_assignment, count_role_call,
  role_calls,
}
use tomorrowedge.Budget.Gate.Laws.{IsCounted}
use tomorrowedge.Budget.Gate.Settling.{fresh, next, reserve, commit, Reaches-IsCounted}
use tomorrowedge.Budget.Scope.{begin_scope, commit_scope, commit_all, release_all}
use tomorrowedge.Budget.Scope.Laws.{IsAllowedIn, scope-counts}
use tomorrowedge.Budget.Scope.Limits.{scope-exceeds_pool}

budget : Unit {0}
unfolding create_budget_runtime_state evaluate_role_invocation evaluate_model_call_invocation
    reserve_role_call commit_role_call release_role_call is_simulated unique update_at show
    native_fallback_assignment count_role_call role_calls begin_scope commit_scope commit_all
    release_all allocate_strong_agent_call
budget = tt

abbrev input : AllocationInput
input = record {
  estimated_cost_usd = some 1_500_000;
  escalation_signals = "high_risk_patch" ∷ [];
  role_budget = some (record { max_cost_per_call_usd = none; max_calls_per_task = some 2 });
  role_used_calls = 1;
}

coder_b_escalates :
    (allocate_strong_agent_call coder_b 2 default_strong_agent_budget input).allowed ≡ true
unfolding budget
coder_b_escalates = refl

coder_b_exhausted :
    (allocate_strong_agent_call coder_b 3 default_strong_agent_budget input).allowed ≡ false
unfolding budget
coder_b_exhausted = refl

allocate-allowed_iff_example :
    ((allocate_strong_agent_call coder_b 2 default_strong_agent_budget input).allowed ≡ true)
    ↔ IsAllowed coder_b 2 default_strong_agent_budget input
allocate-allowed_iff_example = allocate-allowed_iff coder_b 2 default_strong_agent_budget input

-- Two strong calls of the three are used.
abbrev nearly_spent : BudgetRuntimeState
nearly_spent = record {
  strong_agent_calls_used = 2;
  real_strong_agent_calls_used = 2;
  simulated_strong_agent_calls_used = 0;
  role_calls_used = [];
  blocked_roles = [];
  reservations = [];
}

abbrev call : AgentRole → ModelCall
call role = record {
  role = role;
  assignment = record { role = role; provider = "openai"; model = "m"; reason = "debate" };
  role_budget = none;
  estimated_cost_usd = none;
  escalation_signals = [];
  can_fallback = false;
}

abbrev plans : List ModelCall
plans = call reviewer ∷ call judge ∷ []

two_calls_on_one_left :
    (commit_scope
      (begin_scope default_strong_agent_budget pre_judge_debate nearly_spent plans).0
      true
      (0 ∷ 1 ∷ [])).strong_agent_calls_used
    ≡ 4
unfolding budget
two_calls_on_one_left = refl

scope-exceeds_pool_example :
    (reserved : List ℕ) × ((begin_scope default_strong_agent_budget pre_judge_debate nearly_spent
        plans).1
      ≡ some reserved)
    × ((commit_scope
          (begin_scope default_strong_agent_budget pre_judge_debate nearly_spent plans).0
          true
          reserved).strong_agent_calls_used
        ≡ 2 + length plans)
scope-exceeds_pool_example =
    scope-exceeds_pool default_strong_agent_budget pre_judge_debate nearly_spent plans (omega arith)
      ((refl, λ c e. cc), ((refl, λ c e. cc), tt))

scope-counts_example :
    (All (IsAllowedIn default_strong_agent_budget live_advisory nearly_spent) plans
      × (reserved : List ℕ) × ((begin_scope default_strong_agent_budget live_advisory nearly_spent
            plans).1
          ≡ some reserved)
      × ((commit_scope
            (begin_scope default_strong_agent_budget live_advisory nearly_spent plans).0
            true
            reserved).strong_agent_calls_used
          ≡ 2 + length plans)
      × ((commit_scope
            (begin_scope default_strong_agent_budget live_advisory nearly_spent plans).0
            false
            reserved).strong_agent_calls_used
          ≡ 2))
    ⊎ ((¬ All (IsAllowedIn default_strong_agent_budget live_advisory nearly_spent) plans)
        × ((begin_scope default_strong_agent_budget live_advisory nearly_spent plans).1 ≡ none)
        × ((begin_scope default_strong_agent_budget live_advisory nearly_spent
              plans).0.strong_agent_calls_used
            ≡ 2))
scope-counts_example = scope-counts default_strong_agent_budget live_advisory nearly_spent plans

-- A reservation is made and committed.
abbrev reserved_once : BudgetRuntimeState
reserved_once =
    (reserve_role_call create_budget_runtime_state (
      evaluate_model_call_invocation default_strong_agent_budget create_budget_runtime_state
        live_advisory (call coder_b))).0

counted_once : (commit_role_call reserved_once 0).strong_agent_calls_used ≡ 1
unfolding budget
counted_once = refl

Reaches-IsCounted_example : IsCounted (commit_role_call reserved_once 0)
Reaches-IsCounted_example = Reaches-IsCounted (
    next
      (next fresh (
        reserve create_budget_runtime_state (
          evaluate_model_call_invocation default_strong_agent_budget create_budget_runtime_state
            live_advisory (call coder_b))))
      (commit reserved_once 0))
