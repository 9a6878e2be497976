-- ===== src/Budget/Scope/Limits.antt =====
-- The limits of the strong-agent pool against the calls of one scope.
use tomorrowedge.Prelude.{
  ℕ, ◌+◌, ◌<◌, ◌≡◌, refl, true, none, some, List, [], ◌∷◌, All, length, inl, inr,
}
use tomorrowedge.Budget.Allocator.{StrongAgentBudgetConfig}
use tomorrowedge.Budget.Allocator.Laws.{Within, allocate-allowed_iff}
use tomorrowedge.Budget.Gate.{
  BudgetRuntimeState, ModelInvocationKind, ModelCall, model_config, model_invocation,
  allocation_input, evaluate_role_invocation, evaluate_model_call_invocation,
}
use tomorrowedge.Budget.Scope.{begin_scope, commit_scope}
use tomorrowedge.Budget.Scope.Laws.{IsAllowedIn, scope-counts}

module _ (config : StrongAgentBudgetConfig) (kind : ModelInvocationKind) where
  -- A plan whose role has no budget of its own and whose cost is within the pool's limit.
  abbrev pub IsModest : ModelCall → Type 0
  IsModest call = (call.role_budget ≡ none) × Within call.estimated_cost_usd config.max_cost_usd

  modest-IsAllowedIn :
      (runtime : BudgetRuntimeState) (call : ModelCall)
      → runtime.strong_agent_calls_used < config.max_calls_per_task
      → IsModest call
      → IsAllowedIn config kind runtime call
  unfolding evaluate_model_call_invocation evaluate_role_invocation
  modest-IsAllowedIn runtime call left (own, cost) =
      let allowed =
        (allocate-allowed_iff call.role runtime.strong_agent_calls_used (model_config config kind)
            (allocation_input runtime (model_invocation kind call))).1
          (record { pool = λ on. (left, cost); own = λ budget e. cc }) in
      rw allowed refl

  All-IsAllowedIn :
      (runtime : BudgetRuntimeState) (plans : List ModelCall)
      → runtime.strong_agent_calls_used < config.max_calls_per_task
      → All IsModest plans
      → All (IsAllowedIn config kind runtime) plans
  All-IsAllowedIn runtime [] left h = tt
  All-IsAllowedIn runtime (plan ∷ plans) left (h, hs) =
      (modest-IsAllowedIn runtime plan left h, All-IsAllowedIn runtime plans left hs)

  -- While one call is left in the pool, a scope of any number of plans without budgets of their
  -- own and within the cost limit is granted whole, and its commitment counts them all: the
  -- calls used exceed `max_calls_per_task` when there are more plans than calls left.
  pub scope-exceeds_pool :
      (runtime : BudgetRuntimeState) (plans : List ModelCall)
      → runtime.strong_agent_calls_used < config.max_calls_per_task
      → All IsModest plans
      → (reserved : List ℕ) × ((begin_scope config kind runtime plans).1 ≡ some reserved)
        × ((commit_scope
              (begin_scope config kind runtime plans).0
              true
              reserved).strong_agent_calls_used
            ≡ runtime.strong_agent_calls_used + length plans)
  scope-exceeds_pool runtime plans left modest = elim (scope-counts config kind runtime plans) [
    | inl (_, reserved, granted, counted, _) ↦ (reserved, granted, counted)
    | inr (refused, _, _) ↦ absurd (refused (All-IsAllowedIn runtime plans left modest))
  ]
