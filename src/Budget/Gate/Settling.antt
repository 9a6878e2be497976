-- ===== src/Budget/Gate/Settling.antt =====
-- A reservation is settled once, and every state that the budget calls reach counts what it committed.
use tomorrowedge.Prelude.{
  ℕ, zero, suc, ◌≡◌, refl, ap, true, ◌||◌, none, some, List, [], ◌∷◌, get_elem?, arith,
  Option-cases, ◌⊎◌, Bool-cases, inl, inr, eq_of_some,
}
use tomorrowedge.Budget.Gate.{
  BudgetReservation, BudgetRuntimeState, BudgetGateDecision, create_budget_runtime_state, update_at,
  mark_committed, mark_released, count_commit, reserve_role_call, commit_role_call,
  release_role_call, role_calls,
}
use tomorrowedge.Budget.Gate.Laws.{
  IsCounted, reserve-IsCounted, commit-IsCounted, mark_released-IsCounted,
}

get_elem?-update_at :
    (f : BudgetReservation → BudgetReservation) (i : ℕ) (rs : List BudgetReservation)
    {r : BudgetReservation}
    → get_elem? rs i ≡ some r
    → get_elem? (update_at f i rs) i ≡ some (f r)
unfolding update_at
get_elem?-update_at f i [] e = cc
get_elem?-update_at f zero (x ∷ rs) e = ap (λ y. some (f y)) (eq_of_some e)
get_elem?-update_at f (suc i) (x ∷ rs) e = get_elem?-update_at f i rs e

-- No reservation is there, or it is committed or released.
abbrev IsSettled : BudgetRuntimeState → ℕ → Type 0
IsSettled s i =
    (get_elem? s.reservations i ≡ none)
    ⊎ ((r : BudgetReservation) × (get_elem? s.reservations i ≡ some r)
        × ((r.committed || r.released) ≡ true))

commit_of_settled : (s : BudgetRuntimeState) (i : ℕ) → IsSettled s i → commit_role_call s i ≡ s
unfolding commit_role_call
commit_of_settled s i (inl absent) = rw (absent, commit_role_call)
commit_of_settled s i (inr (r, there, h)) = rw (there, commit_role_call) (rw h)

commit_settles : (s : BudgetRuntimeState) (i : ℕ) → IsSettled (commit_role_call s i) i
unfolding commit_role_call count_commit
commit_settles s i = elim (Option-cases (get_elem? s.reservations i)) [
  | inl absent ↦ rw (absent, commit_role_call) (inl absent)
  | inr (r, there) ↦
      rw (there, commit_role_call)
        (elim (Bool-cases (r.committed || r.released)) [
          | inl done ↦ rw done (inr (r, there, done))
          | inr held ↦ rw held (
              inr
                (mark_committed r, get_elem?-update_at mark_committed i s.reservations there, refl))
        ])
]

release_settles : (s : BudgetRuntimeState) (i : ℕ) → IsSettled (release_role_call s i) i
unfolding release_role_call
release_settles s i = elim (Option-cases (get_elem? s.reservations i)) [
  | inl absent ↦ rw (absent, release_role_call) (inl absent)
  | inr (r, there) ↦
      rw (there, release_role_call)
        (elim (Bool-cases r.committed) [
          | inl done ↦ rw done (inr (r, there, ground arith))
          | inr held ↦ rw held (
              inr (
                mark_released r,
                get_elem?-update_at mark_released i s.reservations there,
                ground arith,
              ))
        ])
]

-- Committing a reservation a second time changes nothing, nor does committing one after its
-- release has been asked for: a call is counted once at most.
pub commit_once :
    (s : BudgetRuntimeState) (i : ℕ)
    → (commit_role_call (commit_role_call s i) i ≡ commit_role_call s i)
      × (commit_role_call (release_role_call s i) i ≡ release_role_call s i)
commit_once s i = (
  commit_of_settled (commit_role_call s i) i (commit_settles s i),
  commit_of_settled (release_role_call s i) i (release_settles s i),
)

pub release-IsCounted :
    (s : BudgetRuntimeState) (i : ℕ) → IsCounted s → IsCounted (release_role_call s i)
unfolding release_role_call
release-IsCounted s i c = elim (Option-cases (get_elem? s.reservations i)) [
  | inl absent ↦ rw (absent, release_role_call) c
  | inr (r, there) ↦
      rw (there, release_role_call)
        (elim (Bool-cases r.committed) [
          | inl done ↦ rw done c
          | inr held ↦ rw held (mark_released-IsCounted s i r there held c)
        ])
]

-- The calls that change a budget runtime, in any order and on any reservation.
pub data BudgetStep : BudgetRuntimeState → BudgetRuntimeState → Type 0 where
  reserve :
      (s : BudgetRuntimeState) (d : BudgetGateDecision) → BudgetStep s (reserve_role_call s d).0
  commit : (s : BudgetRuntimeState) (i : ℕ) → BudgetStep s (commit_role_call s i)
  release : (s : BudgetRuntimeState) (i : ℕ) → BudgetStep s (release_role_call s i)

pub data Reaches : BudgetRuntimeState → Type 0 where
  fresh : Reaches create_budget_runtime_state
  next : {s t : BudgetRuntimeState} → Reaches s → BudgetStep s t → Reaches t

BudgetStep-IsCounted : {s t : BudgetRuntimeState} → BudgetStep s t → IsCounted s → IsCounted t
BudgetStep-IsCounted (reserve s d) c = reserve-IsCounted s d c
BudgetStep-IsCounted (commit s i) c = commit-IsCounted s i c
BudgetStep-IsCounted (release s i) c = release-IsCounted s i c

create-IsCounted : IsCounted create_budget_runtime_state
unfolding create_budget_runtime_state role_calls
create-IsCounted = record { strong = refl; real = refl; simulated = refl; per_role = λ role. refl }

-- In every state that reserving, committing and releasing reach from a fresh one, in any order,
-- the counters say what the reservations say: the strong calls used are the committed reservations
-- that draw on the pool, the real and the simulated ones those of them with such a provider, and
-- the calls of a role its committed reservations with a budget of the role.
pub Reaches-IsCounted : {s : BudgetRuntimeState} → Reaches s → IsCounted s
Reaches-IsCounted fresh = create-IsCounted
Reaches-IsCounted (next r step) = BudgetStep-IsCounted step (Reaches-IsCounted r)
