-- ===== src/Budget/Gate/Laws.antt =====
-- The counters of the budget runtime count its committed reservations.
use tomorrowedge.Prelude.{
  ℕ, zero, suc, ◌+◌, ◌≡◌, Bool, true, false, ◌&&◌, some, List, [], ◌∷◌, ◌++◌, get_elem?, arith,
  Option-cases, inl, inr, Bool-cases, eq_of_some,
}
use tomorrowedge.Roles.{AgentRole, role_eq, role_eq_iff}
use tomorrowedge.Budget.Gate.{
  BudgetReservation, BudgetRuntimeState, BudgetGateDecision, RoleCalls, role_calls, count_role_call,
  update_at, is_per_role, draws_on_pool, mark_committed, mark_released, count_commit,
  commit_role_call, reserve_role_call, reservation_of,
}

abbrev to_nat : Bool → ℕ
to_nat true = 1
to_nat false = 0

-- How many reservations of the list pass the test.
abbrev pub count : (BudgetReservation → Bool) → List BudgetReservation → ℕ
count p [] = 0
count p (r ∷ rs) = to_nat (p r) + count p rs

-- The counters say what the reservations say.
pub record IsCounted (runtime : BudgetRuntimeState) : Type 0 where
  pub strong :
      runtime.strong_agent_calls_used
      ≡ count (λ r. r.committed && draws_on_pool r) runtime.reservations
  pub real :
      runtime.real_strong_agent_calls_used
      ≡ count (λ r. r.committed && (draws_on_pool r && r.real_provider)) runtime.reservations
  pub simulated :
      runtime.simulated_strong_agent_calls_used
      ≡ count (λ r. r.committed && (draws_on_pool r && r.simulated)) runtime.reservations
  pub per_role :
      (role : AgentRole)
      → role_calls role runtime.role_calls_used
        ≡ count
            (λ r. r.committed && (is_per_role r.scope && role_eq r.role role))
            runtime.reservations

count-append :
    (p : BudgetReservation → Bool) (xs ys : List BudgetReservation)
    → count p (xs ++ ys) ≡ count p xs + count p ys
count-append p [] ys = omega arith
count-append p (x ∷ xs) ys = omega (arith, count-append p xs ys)

count-update_at :
    (p : BudgetReservation → Bool) (f : BudgetReservation → BudgetReservation) (i : ℕ)
    (rs : List BudgetReservation) {r : BudgetReservation}
    → get_elem? rs i ≡ some r
    → count p (update_at f i rs) + to_nat (p r) ≡ count p rs + to_nat (p (f r))
unfolding update_at
count-update_at p f i [] e = cc
count-update_at p f zero (x ∷ rs) {r} e = let same : x ≡ r = eq_of_some e in rw same (omega arith)
count-update_at p f (suc i) (x ∷ rs) e = omega (arith, count-update_at p f i rs e)

role_calls-count_role_call :
    (role counted : AgentRole) (calls : RoleCalls)
    → role_calls role (count_role_call counted calls)
      ≡ to_nat (role_eq counted role) + role_calls role calls
unfolding role_calls count_role_call
role_calls-count_role_call role counted [] = ground arith
role_calls-count_role_call role counted ((r, n) ∷ calls) = ground (
  arith,
  role_calls-count_role_call role counted calls,
  role_eq_iff r counted,
  role_eq_iff r role,
  role_eq_iff counted role,
)

pub reserve-IsCounted :
    (runtime : BudgetRuntimeState) (decision : BudgetGateDecision)
    → IsCounted runtime
    → IsCounted (reserve_role_call runtime decision).0
unfolding reserve_role_call
reserve-IsCounted runtime decision c =
    let made = reservation_of runtime decision ∷ [] in
    record {
      strong = omega (
        arith,
        c.strong,
        count-append (λ r. r.committed && draws_on_pool r) runtime.reservations made,
      );
      real = omega (
        arith,
        c.real,
        count-append (λ r. r.committed && (draws_on_pool r && r.real_provider)) runtime.reservations
            made,
      );
      simulated = omega (
        arith,
        c.simulated,
        count-append (λ r. r.committed && (draws_on_pool r && r.simulated)) runtime.reservations
            made,
      );
      per_role = λ role. omega (
        arith,
        c.per_role role,
        count-append (λ r. r.committed && (is_per_role r.scope && role_eq r.role role))
            runtime.reservations made,
      );
    }

module _ (runtime : BudgetRuntimeState) (i : ℕ) (r : BudgetReservation)
    (there : get_elem? runtime.reservations i ≡ some r) (unsettled : r.committed ≡ false)
    (c : IsCounted runtime) where
  count_commit-IsCounted : IsCounted (count_commit runtime i r)
  unfolding count_commit
  count_commit-IsCounted = record {
    strong = ground (
      arith,
      c.strong,
      count-update_at (λ r. r.committed && draws_on_pool r) mark_committed i runtime.reservations
          there,
    );
    real = ground (
      arith,
      c.real,
      count-update_at (λ r. r.committed && (draws_on_pool r && r.real_provider)) mark_committed i
          runtime.reservations there,
    );
    simulated = ground (
      arith,
      c.simulated,
      count-update_at (λ r. r.committed && (draws_on_pool r && r.simulated)) mark_committed i
          runtime.reservations there,
    );
    per_role = λ role. ground (
      arith,
      c.per_role role,
      count-update_at (λ r. r.committed && (is_per_role r.scope && role_eq r.role role))
          mark_committed i runtime.reservations there,
      role_calls-count_role_call role r.role runtime.role_calls_used,
    );
  }

  pub mark_released-IsCounted :
      IsCounted (record runtime { reservations = update_at mark_released i runtime.reservations })
  mark_released-IsCounted = record {
    strong = ground (
      arith,
      c.strong,
      count-update_at (λ r. r.committed && draws_on_pool r) mark_released i runtime.reservations
          there,
    );
    real = ground (
      arith,
      c.real,
      count-update_at (λ r. r.committed && (draws_on_pool r && r.real_provider)) mark_released i
          runtime.reservations there,
    );
    simulated = ground (
      arith,
      c.simulated,
      count-update_at (λ r. r.committed && (draws_on_pool r && r.simulated)) mark_released i
          runtime.reservations there,
    );
    per_role = λ role. ground (
      arith,
      c.per_role role,
      count-update_at (λ r. r.committed && (is_per_role r.scope && role_eq r.role role))
          mark_released i runtime.reservations there,
    );
  }

pub commit-IsCounted :
    (runtime : BudgetRuntimeState) (i : ℕ)
    → IsCounted runtime
    → IsCounted (commit_role_call runtime i)
unfolding commit_role_call
commit-IsCounted runtime i c = elim (Option-cases (get_elem? runtime.reservations i)) [
  | inl absent ↦ rw (absent, commit_role_call) c
  | inr (r, there) ↦
      rw (there, commit_role_call)
        (elim (Bool-cases r.committed) [
          | inl done ↦ rw done c
          | inr unsettled ↦ rw unsettled (elim (Bool-cases r.released) [
            | inl gone ↦ rw gone c
            | inr held ↦ rw held (count_commit-IsCounted runtime i r there unsettled c)
          ])
        ])
]
