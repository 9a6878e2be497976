-- ===== src/Budget/Gate/Pool.antt =====
-- What committing and releasing open reservations one after the other counts.
use tomorrowedge.Prelude.{
  ℕ, zero, suc, ◌+◌, ◌≡◌, refl, sym, ◌∙◌, subst, ap, get_elem?, Option-cases, Bool-cases, inl, inr,
  true, false, ◌||◌, some, List, [], ◌∷◌, ◌++◌, arith, length,
}
use tomorrowedge.Budget.Gate.{
  BudgetRuntimeState, BudgetReservation, update_at, mark_committed, count_commit, commit_role_call,
  release_role_call,
}

-- The references `n`, `n + 1`, …, of which there are `k`.
abbrev pub from : ℕ → ℕ → List ℕ
from n zero = []
from n (suc k) = n ∷ from (n + 1) k

get_elem?-length :
    (xs : List BudgetReservation) (r : BudgetReservation) (ys : List BudgetReservation)
    → get_elem? (xs ++ r ∷ ys) (length xs) ≡ some r
get_elem?-length [] r ys = refl
get_elem?-length (x ∷ xs) r ys = get_elem?-length xs r ys

update_at-length :
    (f : BudgetReservation → BudgetReservation) (xs : List BudgetReservation)
    (r : BudgetReservation) (ys : List BudgetReservation)
    → update_at f (length xs) (xs ++ r ∷ ys) ≡ (xs ++ f r ∷ []) ++ ys
unfolding update_at
update_at-length f [] r ys = refl
update_at-length f (x ∷ xs) r ys = ap (λ l. x ∷ l) (update_at-length f xs r ys)

pub release_counts :
    (s : BudgetRuntimeState) (i : ℕ)
    → (release_role_call s i).strong_agent_calls_used ≡ s.strong_agent_calls_used
unfolding release_role_call
release_counts s i = elim (Option-cases (get_elem? s.reservations i)) [
  | inl absent ↦ rw (absent, release_role_call) refl
  | inr (r, there) ↦
      rw (there, release_role_call)
        (elim (Bool-cases r.committed) [
          | inl done ↦ rw done refl
          | inr unsettled ↦ rw unsettled refl
        ])
]

-- A reservation that is open and draws on the strong-agent pool.
abbrev pub IsOpen : BudgetReservation → Type 0
IsOpen r = (r.committed ≡ false) × (r.released ≡ false) × (r.consumes_global ≡ true)

pub commit_open :
    (s : BudgetRuntimeState) (old : List BudgetReservation) (r : BudgetReservation)
    (rest : List BudgetReservation)
    → s.reservations ≡ old ++ r ∷ rest
    → IsOpen r
    → ((commit_role_call s (length old)).strong_agent_calls_used ≡ s.strong_agent_calls_used + 1)
      × ((commit_role_call s (length old)).reservations ≡ (old ++ mark_committed r ∷ []) ++ rest)
unfolding commit_role_call count_commit
commit_open s old r rest e (is_open, held, draws) =
    let there : get_elem? s.reservations (length old) ≡ some r =
      subst (λ l. get_elem? l (length old) ≡ some r) (sym e) (get_elem?-length old r rest) in
    let unsettled : (r.committed || r.released) ≡ false = ground arith in
    rw (there, commit_role_call)
      (rw unsettled (
        ground arith,
        ap (update_at mark_committed (length old)) e ∙ update_at-length mark_committed old r rest,
      ))
