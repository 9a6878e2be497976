-- ===== src/Budget/Gate.antt =====
-- The budget gate and its reservations, src/core/budget/budgetGate.ts. A reservation is an object
-- that the runtime state and its holder share: the holder's reference is its place in the list.
pub mod Evaluation
pub mod State
pub mod Laws
pub mod Pool
pub mod Settling
pub use tomorrowedge.Budget.Gate.Evaluation.{
  allocation_input, ModelInvocationKind, invocation_text, ModelCall, model_config, model_invocation,
  live_advisory, pre_judge_debate,
}
unfoldable pub use tomorrowedge.Budget.Gate.Evaluation.{
  evaluate_role_invocation, evaluate_model_call_invocation,
}
pub use tomorrowedge.Budget.Gate.State.{
  BudgetReservation, RoleCalls, BudgetRuntimeState, GateAction, BudgetGateDecision, allow, fallback,
  block,
}
unfoldable pub use tomorrowedge.Budget.Gate.State.{
  create_budget_runtime_state, role_calls, count_role_call, is_simulated,
  native_fallback_assignment,
}
use tomorrowedge.Routing.Profiles.{RouteAssignment}
use Prim.Native.Char.{code}
use Prim.Native.String
use tomorrowedge.Prelude.{
  ℕ, zero, suc, ◌+◌, String, Bool, true, false, not, ◌&&◌, ◌||◌, Option, none, some, List, [], ◌∷◌,
  ◌++◌, ◌==◌, includes, unique, cat, show, eqb, leb, length, get_elem?, or_else, if◌then◌else◌,
}
use tomorrowedge.Roles.{
  AgentRole, planner, coder_a, reviewer, judge, role_eq, role_text, phase_text, EventPhase,
}
use tomorrowedge.Budget.Allocator.{
  StrongAgentBudgetConfig, AllocationInput, RoleBudget, Scope, global_strong_pool, per_role,
  efficient, BudgetDecision, allocate_strong_agent_call,
}

abbrev pub reservation_of : BudgetRuntimeState → BudgetGateDecision → BudgetReservation
reservation_of runtime decision = record {
  id = cat (
      role_text decision.role
      ∷ "_"
      ∷ phase_text decision.phase
      ∷ "_"
      ∷ show (length runtime.reservations + 1)
      ∷ []);
  role = decision.role;
  phase = decision.phase;
  scope = decision.scope;
  consumes_global = decision.consumes_global;
  real_provider = decision.real_provider;
  simulated = decision.simulated;
  committed = false;
  released = false;
}

-- The new state, and the reference to the reservation.
unfoldable pub reserve_role_call : BudgetRuntimeState → BudgetGateDecision → BudgetRuntimeState × ℕ
reserve_role_call runtime decision = (
  record runtime { reservations = runtime.reservations ++ reservation_of runtime decision ∷ [] },
  length runtime.reservations,
)

-- The object behind the reference is changed in place.
unfoldable pub update_at :
    (BudgetReservation → BudgetReservation) → ℕ → List BudgetReservation → List BudgetReservation
update_at f i [] = []
update_at f zero (r ∷ rs) = f r ∷ rs
update_at f (suc i) (r ∷ rs) = r ∷ update_at f i rs

abbrev is_per_role : Scope → Bool
is_per_role per_role = true
is_per_role _ = false

abbrev is_global : Scope → Bool
is_global global_strong_pool = true
is_global _ = false

-- `reservation.consumesGlobal || reservation.scope === "global_strong_pool"`
abbrev pub draws_on_pool : BudgetReservation → Bool
draws_on_pool r = r.consumes_global || is_global r.scope

abbrev pub mark_committed : BudgetReservation → BudgetReservation
mark_committed r = record r { committed = true }

abbrev pub mark_released : BudgetReservation → BudgetReservation
mark_released r = record r { released = true }

abbrev pub add_if : Bool → ℕ → ℕ
add_if true n = n + 1
add_if false n = n

-- What the commitment of an open reservation counts.
count_commit : BudgetRuntimeState → ℕ → BudgetReservation → BudgetRuntimeState
count_commit runtime i r = record runtime {
  reservations = update_at mark_committed i runtime.reservations;
  role_calls_used =
      if is_per_role r.scope
      then count_role_call r.role runtime.role_calls_used
      else runtime.role_calls_used;
  strong_agent_calls_used = add_if (draws_on_pool r) runtime.strong_agent_calls_used;
  real_strong_agent_calls_used =
      add_if (draws_on_pool r && r.real_provider) runtime.real_strong_agent_calls_used;
  simulated_strong_agent_calls_used =
      add_if (draws_on_pool r && r.simulated) runtime.simulated_strong_agent_calls_used;
}

unfoldable pub commit_role_call : BudgetRuntimeState → ℕ → BudgetRuntimeState
unfolding count_commit
commit_role_call runtime i = elim (get_elem? runtime.reservations i) [
  | none ↦ runtime
  | some r ↦ if r.committed || r.released then runtime else count_commit runtime i r
]

unfoldable pub release_role_call : BudgetRuntimeState → ℕ → BudgetRuntimeState
release_role_call runtime i = elim (get_elem? runtime.reservations i) [
  | none ↦ runtime
  | some r ↦
      if r.committed
      then runtime
      else record runtime { reservations = update_at mark_released i runtime.reservations }
]
