-- ===== src/Budget/Allocator/Laws.antt =====
-- When a call is allowed, as a condition on the limits.
use tomorrowedge.Prelude.{
  refl, subst, eq_of_some, leb, Option-cases, inl, inr, ℕ, ◌≤◌, ◌<◌, ◌≡◌, ◌↔◌, true, false, Option,
  none, some, arith,
}
use tomorrowedge.Roles.{AgentRole}
use tomorrowedge.Budget.Allocator.{
  StrongAgentBudgetConfig, AllocationInput, RoleBudget, consumes_reserve, allocate_role,
  allocate_global, allocate_strong_agent_call, over, over_role, role_remaining,
}

-- A known cost is within a limit.
abbrev pub Within : Option ℕ → ℕ → Type 0
Within cost limit = (c : ℕ) → cost ≡ some c → c ≤ limit

-- The limits of a role's own budget, where it has one.
pub record WithinRole (estimated : Option ℕ) (used : ℕ) (budget : RoleBudget) : Type 0 where
  pub cost : (limit : ℕ) → budget.max_cost_per_call_usd ≡ some limit → Within estimated limit
  pub calls : (most : ℕ) → budget.max_calls_per_task ≡ some most → used < most

pub record IsAllowed (role : AgentRole) (used : ℕ) (config : StrongAgentBudgetConfig)
    (input : AllocationInput) : Type 0 where
  pub pool :
      consumes_reserve role config input ≡ true
      → (used < config.max_calls_per_task) × Within input.estimated_cost_usd config.max_cost_usd
  pub own :
      (budget : RoleBudget)
      → input.role_budget ≡ some budget
      → WithinRole input.estimated_cost_usd input.role_used_calls budget

Within-iff : (cost : Option ℕ) (limit : ℕ) → (over cost limit ≡ false) ↔ Within cost limit
Within-iff none limit = (λ h c e. cc, λ h. refl)
Within-iff (some c) limit = (λ h d e. ground arith, λ h. ground (arith, h c))

over_role_iff :
    (cost limit : Option ℕ)
    → (over_role cost limit ≡ false) ↔ ((l : ℕ) → limit ≡ some l → Within cost l)
over_role_iff cost none = (λ h l e. cc, λ h. refl)
over_role_iff cost (some l) = (
  λ h k e. subst (Within cost) (eq_of_some e) ((Within-iff cost l).0 h),
  λ h. (Within-iff cost l).1 (h l refl),
)

calls_iff :
    (budget : RoleBudget) (used : ℕ)
    → (leb (role_remaining budget used) 0 ≡ false)
      ↔ ((most : ℕ) → budget.max_calls_per_task ≡ some most → used < most)
calls_iff budget used = elim (Option-cases budget.max_calls_per_task) [
  | inl e ↦ rw (e, role_remaining) ((λ h m k. cc, λ h. refl))
  | inr (most, e) ↦ rw (e, role_remaining) ((λ h m k. ground arith, λ h. ground (arith, h most)))
]

module _ (role : AgentRole) (used : ℕ) (config : StrongAgentBudgetConfig)
    (input : AllocationInput) where
  abbrev Pool : Type 0
  Pool =
      consumes_reserve role config input ≡ true
      → (used < config.max_calls_per_task) × Within input.estimated_cost_usd config.max_cost_usd

  allocate_role_iff :
      (budget : RoleBudget)
      → ((allocate_role role used config input budget).allowed ≡ true)
        ↔ (Pool × WithinRole input.estimated_cost_usd input.role_used_calls budget)
  unfolding allocate_role
  allocate_role_iff budget =
      let cost = Within-iff input.estimated_cost_usd config.max_cost_usd in
      let own = over_role_iff input.estimated_cost_usd budget.max_cost_per_call_usd in
      let calls = calls_iff budget input.role_used_calls in
      (
        λ h. (
          (λ on. (ground arith, cost.0 (ground arith))),
          record { cost = own.0 (ground arith); calls = calls.0 (ground arith) },
        ),
        λ h. ground (arith, cost.1, own.1 h.1.cost, calls.1 h.1.calls, h.0),
      )

  allocate_global_iff : ((allocate_global role used config input).allowed ≡ true) ↔ Pool
  unfolding allocate_global
  allocate_global_iff =
      let cost = Within-iff input.estimated_cost_usd config.max_cost_usd in
      (λ h on. (ground arith, cost.0 (ground arith)), λ h. ground (arith, cost.1, h))

  -- A call is allowed exactly within the limits: those of the strong-agent pool, if the role or an
  -- escalation draws on it, and those of the role's own budget, if it has one.
  pub allocate-allowed_iff :
      ((allocate_strong_agent_call role used config input).allowed ≡ true)
      ↔ IsAllowed role used config input
  unfolding allocate_strong_agent_call
  allocate-allowed_iff = elim (Option-cases input.role_budget) [
    | inl e ↦
        rw (e, allocate_strong_agent_call)
          (
            (λ h. record { pool = allocate_global_iff.0 h; own = λ b k. cc }),
            λ a. allocate_global_iff.1 a.pool,
          )
    | inr (budget, e) ↦
        rw (e, allocate_strong_agent_call)
          (
            (λ h.
                let (pool, own) = (allocate_role_iff budget).0 h in
                record {
                  pool = pool;
                  own = λ b k.
                      subst (WithinRole input.estimated_cost_usd input.role_used_calls)
                        (eq_of_some k) own;
                }),
            λ a. (allocate_role_iff budget).1 (a.pool, a.own budget refl),
          )
  ]
