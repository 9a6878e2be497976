-- ===== src/Budget/Scope.antt =====
-- The budget scope of a model invocation with several plans: `beginModelInvocationBudgetScope`,
-- `commitModelInvocationBudgetScope` and `releaseModelInvocationBudgetScope` of
-- src/core/agentGraph/executor.ts. A plan carries its estimated cost and its signals; the
-- preflight warning and the events of the ledger change no decision and are left out.
pub mod Laws
pub mod Limits
use tomorrowedge.Prelude.{
  ℕ, String, Bool, true, false, Option, none, some, List, [], ◌∷◌, ◌++◌, if◌then◌else◌,
}
use tomorrowedge.Roles.{AgentRole, role_eq}
use tomorrowedge.Budget.Allocator.{StrongAgentBudgetConfig}
use tomorrowedge.Budget.Gate.{
  BudgetRuntimeState, BudgetGateDecision, GateAction, allow, ModelInvocationKind, ModelCall,
  evaluate_model_call_invocation, reserve_role_call, commit_role_call, release_role_call,
}

abbrev pub is_allow : GateAction → Bool
is_allow allow = true
is_allow _ = false

-- `blockedRoles[role] = reason`
block_role : AgentRole → String → List (AgentRole × String) → List (AgentRole × String)
block_role role reason [] = (role, reason) ∷ []
block_role role reason ((r, text) ∷ blocked) =
    if role_eq r role then (r, reason) ∷ blocked else (r, text) ∷ block_role role reason blocked

unfoldable pub commit_all : BudgetRuntimeState → List ℕ → BudgetRuntimeState
commit_all runtime [] = runtime
commit_all runtime (i ∷ is) = commit_all (commit_role_call runtime i) is

unfoldable pub release_all : BudgetRuntimeState → List ℕ → BudgetRuntimeState
release_all runtime [] = runtime
release_all runtime (i ∷ is) = release_all (release_role_call runtime i) is

-- A plan that is not allowed: its role is blocked, and what was reserved is released.
give_up : BudgetRuntimeState → List ℕ → BudgetGateDecision → BudgetRuntimeState × Option (List ℕ)
unfolding block_role release_all
give_up runtime reserved decision = (
  release_all
      (record runtime {
        blocked_roles = block_role decision.role decision.reason runtime.blocked_roles;
      })
      reserved,
  none,
)

module _ (config : StrongAgentBudgetConfig) (kind : ModelInvocationKind) where
  -- The loop over the plans, with the references reserved so far.
  begin_from : List ℕ → BudgetRuntimeState → List ModelCall → BudgetRuntimeState × Option (List ℕ)
  unfolding give_up
  begin_from reserved runtime [] = (runtime, some reserved)
  begin_from reserved runtime (plan ∷ plans) =
      let decision = evaluate_model_call_invocation config runtime kind plan in
      let (runtime', i) = reserve_role_call runtime decision in
      let rest = begin_from (reserved ++ i ∷ []) runtime' plans in
      if is_allow decision.action then rest else give_up runtime reserved decision

  unfoldable pub begin_scope :
      BudgetRuntimeState → List ModelCall → BudgetRuntimeState × Option (List ℕ)
  unfolding begin_from
  begin_scope runtime plans = begin_from [] runtime plans

-- `successful` says that some note has no error, or that there are none.
unfoldable pub commit_scope : BudgetRuntimeState → Bool → List ℕ → BudgetRuntimeState
unfolding commit_all release_all
commit_scope runtime successful reserved =
    if successful then commit_all runtime reserved else release_all runtime reserved
