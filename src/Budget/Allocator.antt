-- ===== src/Budget/Allocator.antt =====
-- Which strong-agent call is allowed: src/core/budget/budgetAllocator.ts and strongAgentBudget.ts.
-- A cost in dollars is a whole number of millionths, as the messages print it.
pub mod Laws
use tomorrowedge.Prelude.{
  ℕ, ◌+◌, ◌-◌, ◌/◌, ◌%◌, min, String, Bool, true, false, not, ◌&&◌, ◌||◌, Option, none, some, List,
  [], ◌∷◌, filter, includes, is_empty, cat, join, show, ltb, leb, or_else, if◌then◌else◌,
}
use tomorrowedge.Roles.{AgentRole, core, planner, reviewer, judge, has_role, role_text}

pub record StrongAgentBudgetConfig : Type 0 where
  pub max_calls_per_task : ℕ
  pub max_cost_usd : ℕ
  pub reserve_for_roles : List AgentRole
  pub escalate_on : List String

abbrev pub default_strong_agent_budget : StrongAgentBudgetConfig
default_strong_agent_budget = record {
  max_calls_per_task = 3;
  max_cost_usd = 2_000_000;
  reserve_for_roles = planner ∷ reviewer ∷ judge ∷ [];
  escalate_on =
      "high_risk_patch" ∷ "repeated_test_failure" ∷ "reviewer_disagreement"
      ∷ "security_sensitive_change" ∷ [];
}

abbrev pub is_strong_agent_role : AgentRole → Bool
is_strong_agent_role core = true
is_strong_agent_role planner = true
is_strong_agent_role reviewer = true
is_strong_agent_role judge = true
is_strong_agent_role _ = false

pub data Scope : Type 0 where
  global_strong_pool per_role efficient : Scope

pub record RoleBudget : Type 0 where
  pub max_cost_per_call_usd : Option ℕ
  pub max_calls_per_task : Option ℕ

pub record AllocationInput : Type 0 where
  pub estimated_cost_usd : Option ℕ
  pub escalation_signals : List String
  pub role_budget : Option RoleBudget
  pub role_used_calls : ℕ

pub record BudgetDecision : Type 0 where
  pub role : AgentRole
  pub allowed : Bool
  pub reason : String
  pub remaining_calls : ℕ
  pub estimated_cost_usd : Option ℕ
  pub escalation_signals : List String
  pub scope : Scope
  pub consumes_global : Bool

-- `Number.MAX_SAFE_INTEGER`
abbrev pub max_safe_integer : ℕ
max_safe_integer = 9_007_199_254_740_991

drop_first : String → String
drop_first String.[] = ""
drop_first (String.◌∷◌ c s) = s

-- `$${cost.toFixed(6)}`: the six digits behind the point are those of the rest plus a million,
-- less the first.
usd : ℕ → String
unfolding drop_first
usd n =
    let digits = show (n % 1_000_000 + 1_000_000) in
    cat ("$" ∷ show (n / 1_000_000) ∷ "." ∷ drop_first digits ∷ [])

-- Whether a cost is known and is above a limit.
abbrev pub over : Option ℕ → ℕ → Bool
over none limit = false
over (some cost) limit = ltb limit cost

abbrev pub over_role : Option ℕ → Option ℕ → Bool
over_role cost none = false
over_role cost (some limit) = over cost limit

strong_cost_reason : ℕ → ℕ → String
unfolding usd
strong_cost_reason cost limit = cat (
    "Strong-agent estimated cost "
    ∷ usd cost
    ∷ " exceeds strong_agents.max_cost_usd "
    ∷ usd limit
    ∷ "."
    ∷ [])

role_cost_reason : AgentRole → ℕ → ℕ → String
unfolding usd
role_cost_reason role cost limit = cat (
    "Role "
    ∷ role_text role
    ∷ " estimated cost "
    ∷ usd cost
    ∷ " exceeds agents."
    ∷ role_text role
    ∷ ".budget.max_cost_per_call_usd "
    ∷ usd limit
    ∷ "."
    ∷ [])

role_allowed_reason : AgentRole → Bool → ℕ → ℕ → String
role_allowed_reason role consumes role_left global_left =
    if consumes
    then cat (
        "Role-specific budget allows "
        ∷ role_text role
        ∷ "; remaining role calls="
        ∷ show role_left
        ∷ "; global strong-agent remaining="
        ∷ show global_left
        ∷ "."
        ∷ [])
    else cat (
        "Role-specific budget allows "
        ∷ role_text role
        ∷ "; remaining role calls="
        ∷ show role_left
        ∷ "."
        ∷ [])

reserved_reason : AgentRole → List String → String
reserved_reason role signals = cat (
    "Strong-agent call reserved for "
    ∷ role_text role
    ∷ (if is_empty signals then "" else cat (" due to " ∷ join ", " signals ∷ []))
    ∷ "."
    ∷ [])

exhausted_reason : AgentRole → String
exhausted_reason role =
    cat ("Strong-agent call budget exhausted before " ∷ role_text role ∷ "." ∷ [])

-- `escalationSignals`: those of the input that the configuration names.
abbrev pub signals_of : StrongAgentBudgetConfig → AllocationInput → List String
signals_of config input =
    filter (λ signal. includes config.escalate_on signal) input.escalation_signals

abbrev pub consumes_reserve : AgentRole → StrongAgentBudgetConfig → AllocationInput → Bool
consumes_reserve role config input =
    has_role config.reserve_for_roles role
    || is_strong_agent_role role
    || not (is_empty (signals_of config input))

abbrev pub role_remaining : RoleBudget → ℕ → ℕ
role_remaining budget used = elim budget.max_calls_per_task [
  | none ↦ max_safe_integer
  | some most ↦ most - used
]

abbrev pub global_remaining : Bool → StrongAgentBudgetConfig → ℕ → ℕ
global_remaining consumes config used =
    if consumes then config.max_calls_per_task - used else max_safe_integer

-- The branch for a role with a budget of its own.
allocate_role :
    AgentRole → ℕ → StrongAgentBudgetConfig → AllocationInput → RoleBudget → BudgetDecision
unfolding strong_cost_reason role_cost_reason role_allowed_reason exhausted_reason
allocate_role role used config input budget =
    let consumes = consumes_reserve role config input in
    let role_left = role_remaining budget input.role_used_calls in
    let global_left = global_remaining consumes config used in
    let decide : Bool → Bool → String → BudgetDecision = λ allowed consumes_global reason. record {
      role = role;
      allowed = allowed;
      reason = reason;
      remaining_calls = min role_left global_left;
      estimated_cost_usd = input.estimated_cost_usd;
      escalation_signals = signals_of config input;
      scope = per_role;
      consumes_global = consumes_global;
    } in
    let cost = or_else input.estimated_cost_usd 0 in
    if consumes && over input.estimated_cost_usd config.max_cost_usd
    then decide false true (strong_cost_reason cost config.max_cost_usd)
    else if over_role input.estimated_cost_usd budget.max_cost_per_call_usd
    then decide false consumes (role_cost_reason role cost (or_else budget.max_cost_per_call_usd 0))
    else if consumes && leb global_left 0
    then decide false true (exhausted_reason role)
    else if leb role_left 0
    then decide false consumes
        (cat ("Role-specific call budget exhausted before " ∷ role_text role ∷ "." ∷ []))
    else decide true consumes (role_allowed_reason role consumes role_left global_left)

-- The branch for a role with no budget of its own.
allocate_global : AgentRole → ℕ → StrongAgentBudgetConfig → AllocationInput → BudgetDecision
unfolding strong_cost_reason exhausted_reason reserved_reason
allocate_global role used config input =
    let signals = signals_of config input in
    let left = config.max_calls_per_task - used in
    let decide : Bool → Scope → Bool → String → BudgetDecision =
      λ allowed scope consumes_global reason. record {
        role = role;
        allowed = allowed;
        reason = reason;
        remaining_calls = left;
        estimated_cost_usd = input.estimated_cost_usd;
        escalation_signals = signals;
        scope = scope;
        consumes_global = consumes_global;
      } in
    if not (consumes_reserve role config input)
    then decide true efficient false
        "Efficient execution role does not consume strong-agent reserve."
    else if over input.estimated_cost_usd config.max_cost_usd
    then decide false global_strong_pool true
        (strong_cost_reason (or_else input.estimated_cost_usd 0) config.max_cost_usd)
    else if ltb 0 left
    then decide true global_strong_pool true (reserved_reason role signals)
    else decide false global_strong_pool true (exhausted_reason role)

unfoldable pub allocate_strong_agent_call :
    AgentRole → ℕ → StrongAgentBudgetConfig → AllocationInput → BudgetDecision
unfolding allocate_role allocate_global
allocate_strong_agent_call role used config input = elim input.role_budget [
  | some budget ↦ allocate_role role used config input budget
  | none ↦ allocate_global role used config input
]
