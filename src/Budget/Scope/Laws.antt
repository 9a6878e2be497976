-- ===== src/Budget/Scope/Laws.antt =====
-- What a scope reserves and counts.
use mathlib.Core.List.{append-nil, append_assoc}
use tomorrowedge.Prelude.{
  ℕ, unique, includes-unique, suc, ◌+◌, ◌≡◌, refl, sym, ◌∙◌, subst, ap, String, true, false, Option,
  none, some, List, [], ◌∷◌, ◌++◌, includes, eq_refl, arith, All, length, length-append, Bool-cases,
  ◌⊎◌, inl, inr,
}
use tomorrowedge.Budget.Allocator.{
  StrongAgentBudgetConfig, consumes_reserve, allocate_strong_agent_call,
}
use tomorrowedge.Budget.Gate.{
  BudgetRuntimeState, ModelInvocationKind, invocation_text, ModelCall, model_config,
  model_invocation, allocation_input, evaluate_role_invocation, evaluate_model_call_invocation,
  reserve_role_call, commit_role_call, BudgetGateDecision, reservation_of, release_role_call,
  BudgetReservation, mark_committed,
}
use tomorrowedge.Budget.Gate.Pool.{from, IsOpen, commit_open, release_counts}
use tomorrowedge.Budget.Scope.{
  is_allow, block_role, give_up, begin_from, begin_scope, commit_all, commit_scope, release_all,
}

includes_last : (xs : List String) (s : String) → includes (xs ++ s ∷ []) s ≡ true
includes_last [] s = ground (arith, eq_refl s)
includes_last (x ∷ xs) s = ground (arith, includes_last xs s)

module _ (config : StrongAgentBudgetConfig) (kind : ModelInvocationKind) where
  knows_kind : includes (model_config config kind).escalate_on (invocation_text kind) ≡ true
  knows_kind = ground (
    arith,
    includes-unique [] (config.escalate_on ++ invocation_text kind ∷ []) (invocation_text kind),
    includes_last config.escalate_on (invocation_text kind),
  )

  model_call_draws :
      (runtime : BudgetRuntimeState) (call : ModelCall)
      → consumes_reserve call.role
          (model_config config kind)
          (allocation_input runtime (model_invocation kind call))
        ≡ true
  unfolding unique
  model_call_draws runtime call = ground (arith, knows_kind)

  -- A model invocation draws on the strong-agent pool, whatever its role: its kind is one of the
  -- signals that escalate.
  pub model_call-consumes_global :
      (runtime : BudgetRuntimeState) (call : ModelCall)
      → (evaluate_model_call_invocation config runtime kind call).consumes_global ≡ true
  unfolding evaluate_model_call_invocation allocate_strong_agent_call
  model_call-consumes_global runtime call = ground (arith, model_call_draws runtime call)

-- Committing the open reservations behind `old`, in order, counts each of them.
pub commit_all_open :
    (s : BudgetRuntimeState) (old made : List BudgetReservation)
    → s.reservations ≡ old ++ made
    → All IsOpen made
    → (commit_all s (from (length old) (length made))).strong_agent_calls_used
      ≡ s.strong_agent_calls_used + length made
unfolding commit_all
commit_all_open s old [] e h = omega arith
commit_all_open s old (r ∷ rest) e (h, hs) =
    let (counted, left) = commit_open s old r rest e h in
    let more =
      commit_all_open (commit_role_call s (length old)) (old ++ mark_committed r ∷ []) rest left
        hs in
    subst
      (λ n.
        (commit_all (commit_role_call s (length old))
          (from n (length rest))).strong_agent_calls_used
        ≡ s.strong_agent_calls_used + length (r ∷ rest))
      (length-append old (mark_committed r ∷ [])) (more ∙ omega (arith, counted))

-- Releasing counts nothing.
pub release_all_counts :
    (s : BudgetRuntimeState) (is : List ℕ)
    → (release_all s is).strong_agent_calls_used ≡ s.strong_agent_calls_used
unfolding release_all
release_all_counts s [] = refl
release_all_counts s (i ∷ is) = release_all_counts (release_role_call s i) is ∙ release_counts s i

-- What a scope reserves, and that it is none when a plan is refused.
module _ (config : StrongAgentBudgetConfig) (kind : ModelInvocationKind) where
  -- The gate allows the plan in this state.
  abbrev pub IsAllowedIn : BudgetRuntimeState → ModelCall → Type 0
  IsAllowedIn runtime call =
      is_allow (evaluate_model_call_invocation config runtime kind call).action ≡ true

  -- The reservations that a granted scope adds behind those that are there.
  pub record IsGranted (reserved : List ℕ) (runtime : BudgetRuntimeState) (plans : List ModelCall)
      (result : BudgetRuntimeState × Option (List ℕ)) : Type 0 where
    pub made : List BudgetReservation
    pub one_each : length made ≡ length plans
    pub all_open : All IsOpen made
    pub references : result.1 ≡ some (reserved ++ from (length runtime.reservations) (length made))
    pub kept : result.0.reservations ≡ runtime.reservations ++ made
    pub uncounted : result.0.strong_agent_calls_used ≡ runtime.strong_agent_calls_used
    pub allowed : All (IsAllowedIn runtime) plans

  pub record IsRefused (runtime : BudgetRuntimeState) (plans : List ModelCall)
      (result : BudgetRuntimeState × Option (List ℕ)) : Type 0 where
    pub no_scope : result.1 ≡ none
    pub uncounted : result.0.strong_agent_calls_used ≡ runtime.strong_agent_calls_used
    pub forbidden : ¬ All (IsAllowedIn runtime) plans

  allowed_reserved :
      (runtime : BudgetRuntimeState) (d : BudgetGateDecision) (plans : List ModelCall)
      → All (IsAllowedIn (reserve_role_call runtime d).0) plans ≡ All (IsAllowedIn runtime) plans
  unfolding reserve_role_call evaluate_model_call_invocation evaluate_role_invocation
  allowed_reserved runtime d [] = refl
  allowed_reserved runtime d (plan ∷ plans) =
      ap (λ T. IsAllowedIn runtime plan × T) (allowed_reserved runtime d plans)

  add-IsGranted :
      (reserved : List ℕ) (runtime : BudgetRuntimeState) (plan : ModelCall) (plans : List ModelCall)
      (d : BudgetGateDecision) {result : BudgetRuntimeState × Option (List ℕ)}
      → IsAllowedIn runtime plan
      → d.consumes_global ≡ true
      → IsGranted
          (reserved ++ length runtime.reservations ∷ [])
          (reserve_role_call runtime d).0
          plans
          result
      → IsGranted reserved runtime (plan ∷ plans) result
  unfolding reserve_role_call
  add-IsGranted reserved runtime plan plans d {result} ok draws g = record {
    made = reservation_of runtime d ∷ g.made;
    one_each = ap suc g.one_each;
    all_open = ((refl, refl, draws), g.all_open);
    references =
        g.references
        ∙ ap some (
            append_assoc reserved (length runtime.reservations ∷ []) (
              from (length (runtime.reservations ++ reservation_of runtime d ∷ []))
                (length g.made)))
        ∙ ap (λ n. some (reserved ++ length runtime.reservations ∷ from n (length g.made)))
            (length-append runtime.reservations (reservation_of runtime d ∷ []));
    kept = g.kept ∙ append_assoc runtime.reservations (reservation_of runtime d ∷ []) g.made;
    uncounted = g.uncounted;
    allowed = (ok, subst (λ T. T) (allowed_reserved runtime d plans) g.allowed);
  }

  begin_from_cases :
      (reserved : List ℕ) (runtime : BudgetRuntimeState) (plans : List ModelCall)
      → IsGranted reserved runtime plans (begin_from config kind reserved runtime plans)
        ⊎ IsRefused runtime plans (begin_from config kind reserved runtime plans)
  unfolding begin_from give_up reserve_role_call
  begin_from_cases reserved runtime [] = inl (record {
    made = [];
    one_each = refl;
    all_open = tt;
    references = ap some (sym (append-nil reserved));
    kept = sym (append-nil runtime.reservations);
    uncounted = refl;
    allowed = tt;
  })
  begin_from_cases reserved runtime (plan ∷ plans) =
      let decision = evaluate_model_call_invocation config runtime kind plan in
      let rest =
        begin_from_cases (reserved ++ length runtime.reservations ∷ [])
          (reserve_role_call runtime decision).0 plans in
      elim (Bool-cases (is_allow decision.action)) [
        | inr refused ↦ rw refused (
            inr (record {
              no_scope = refl;
              uncounted =
                  release_all_counts
                    (record runtime {
                      blocked_roles =
                          block_role decision.role decision.reason runtime.blocked_roles;
                    })
                    reserved;
              forbidden = λ h. cc (h.0);
            }))
        | inl granted ↦ rw granted (elim rest [
          | inl g ↦ inl (
              add-IsGranted reserved runtime plan plans decision granted
                (model_call-consumes_global config kind runtime plan) g)
          | inr r ↦ inr (record {
            no_scope = r.no_scope;
            uncounted = r.uncounted;
            forbidden = λ h.
                r.forbidden (subst (λ T. T) (sym (allowed_reserved runtime decision plans)) h.1);
          })
        ])
      ]

  -- A scope is granted if the gate allows each of its plans in the state before it, and is refused
  -- otherwise. A refused scope, and one whose notes are all errors, counts no call; a granted one
  -- whose notes are not counts one strong call for each plan, whatever the pool has left.
  pub scope-counts :
      (runtime : BudgetRuntimeState) (plans : List ModelCall)
      → (All (IsAllowedIn runtime) plans
          × (reserved : List ℕ) × ((begin_scope config kind runtime plans).1 ≡ some reserved)
          × ((commit_scope
                (begin_scope config kind runtime plans).0
                true
                reserved).strong_agent_calls_used
              ≡ runtime.strong_agent_calls_used + length plans)
          × ((commit_scope
                (begin_scope config kind runtime plans).0
                false
                reserved).strong_agent_calls_used
              ≡ runtime.strong_agent_calls_used))
        ⊎ ((¬ All (IsAllowedIn runtime) plans)
            × ((begin_scope config kind runtime plans).1 ≡ none)
            × ((begin_scope config kind runtime plans).0.strong_agent_calls_used
                ≡ runtime.strong_agent_calls_used))
  unfolding begin_scope commit_scope
  scope-counts runtime plans = elim (begin_from_cases [] runtime plans) [
    | inr r ↦ inr (r.forbidden, r.no_scope, r.uncounted)
    | inl g ↦ inl (
      g.allowed,
      from (length runtime.reservations) (length g.made),
      g.references,
      commit_all_open (begin_from config kind [] runtime plans).0 runtime.reservations g.made g.kept
            g.all_open
          ∙ omega (arith, g.uncounted, g.one_each),
      release_all_counts (begin_from config kind [] runtime plans).0
            (from (length runtime.reservations) (length g.made))
          ∙ g.uncounted,
    )
  ]
