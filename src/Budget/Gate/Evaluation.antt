-- ===== src/Budget/Gate/Evaluation.antt =====
-- What the budget gate says of a call, src/core/budget/budgetGate.ts.
use tomorrowedge.Budget.Gate.State.{
  BudgetRuntimeState, GateAction, BudgetGateDecision, allow, fallback, block,
}
use tomorrowedge.Budget.Gate.State.{role_calls, is_simulated, native_fallback_assignment}
use tomorrowedge.Routing.Profiles.{RouteAssignment}
use tomorrowedge.Prelude.{
  ℕ, String, Bool, true, false, not, Option, none, some, List, [], ◌∷◌, ◌++◌, unique,
}
use tomorrowedge.Roles.{AgentRole, EventPhase}
use tomorrowedge.Budget.Allocator.{
  StrongAgentBudgetConfig, AllocationInput, RoleBudget, allocate_strong_agent_call,
}

pub record RoleInvocation : Type 0 where
  pub role : AgentRole
  pub phase : EventPhase
  pub assignment : RouteAssignment
  pub role_budget : Option RoleBudget
  pub estimated_cost_usd : Option ℕ
  pub escalation_signals : List String
  pub can_fallback : Bool

abbrev pub allocation_input : BudgetRuntimeState → RoleInvocation → AllocationInput
allocation_input runtime call = record {
  estimated_cost_usd = call.estimated_cost_usd;
  escalation_signals = call.escalation_signals;
  role_budget = call.role_budget;
  role_used_calls = role_calls call.role runtime.role_calls_used;
}

-- The action, and the assignment that the fallback uses.
abbrev action_of : Bool → Bool → GateAction
action_of true can_fallback = allow
action_of false true = fallback
action_of false false = block

abbrev fallback_of : GateAction → AgentRole → RouteAssignment → Option RouteAssignment
fallback_of fallback role assignment = some (native_fallback_assignment role assignment)
fallback_of _ role assignment = none

unfoldable pub evaluate_role_invocation :
    StrongAgentBudgetConfig → BudgetRuntimeState → RoleInvocation → BudgetGateDecision
unfolding is_simulated
evaluate_role_invocation config runtime call =
    let decision =
      allocate_strong_agent_call call.role runtime.strong_agent_calls_used config
        (allocation_input runtime call) in
    let action = action_of decision.allowed call.can_fallback in
    record {
      role = call.role;
      phase = call.phase;
      action = action;
      reason = decision.reason;
      assignment = call.assignment;
      fallback_assignment = fallback_of action call.role call.assignment;
      scope = decision.scope;
      consumes_global = decision.consumes_global;
      real_provider = not (is_simulated call.assignment.provider);
      simulated = is_simulated call.assignment.provider;
      estimated_cost_usd = decision.estimated_cost_usd;
      remaining_calls = decision.remaining_calls;
    }

pub data ModelInvocationKind : Type 0 where
  model_planner task_governance live_patch live_advisory pre_judge_debate : ModelInvocationKind

abbrev pub invocation_text : ModelInvocationKind → String
invocation_text model_planner = "model_planner"
invocation_text task_governance = "task_governance"
invocation_text live_patch = "live_patch"
invocation_text live_advisory = "live_advisory"
invocation_text pre_judge_debate = "pre_judge_debate"

abbrev phase_for_invocation : ModelInvocationKind → EventPhase
phase_for_invocation live_patch = EventPhase.coding
phase_for_invocation pre_judge_debate = EventPhase.judge
phase_for_invocation _ = EventPhase.planning

pub record ModelCall : Type 0 where
  pub role : AgentRole
  pub assignment : RouteAssignment
  pub role_budget : Option RoleBudget
  pub estimated_cost_usd : Option ℕ
  pub escalation_signals : List String
  pub can_fallback : Bool

-- The configuration and the invocation that a model call is gated by.
abbrev pub model_config : StrongAgentBudgetConfig → ModelInvocationKind → StrongAgentBudgetConfig
model_config config kind = record config {
  escalate_on = unique [] (config.escalate_on ++ invocation_text kind ∷ []);
}

abbrev pub model_invocation : ModelInvocationKind → ModelCall → RoleInvocation
model_invocation kind call = record {
  role = call.role;
  phase = phase_for_invocation kind;
  assignment = call.assignment;
  role_budget = call.role_budget;
  estimated_cost_usd = call.estimated_cost_usd;
  escalation_signals = unique [] (invocation_text kind ∷ call.escalation_signals);
  can_fallback = call.can_fallback;
}

unfoldable pub evaluate_model_call_invocation :
    StrongAgentBudgetConfig
    → BudgetRuntimeState
    → ModelInvocationKind
    → ModelCall
    → BudgetGateDecision
unfolding evaluate_role_invocation
evaluate_model_call_invocation config runtime kind call =
    evaluate_role_invocation (model_config config kind) runtime (model_invocation kind call)
