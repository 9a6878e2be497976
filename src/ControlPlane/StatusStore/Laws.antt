-- ===== src/ControlPlane/StatusStore/Laws.antt =====
-- What `writeStatus` leaves in the ledger, whether it returns or throws.
use tomorrowedge.Prelude.{
  subst, sym, String, ◌≡◌, refl, true, [], ◌∷◌, ◌++◌, ◌⊎◌, inl, inr, some, arith, cat,
}
use tomorrowedge.ControlPlane.Specs.{StatusSpec, returned, threw}
use tomorrowedge.ControlPlane.Effects.{Attempt-cases}
use tomorrowedge.ControlPlane.Host.{Left, Host}
use tomorrowedge.ControlPlane.StatusStore.{
  Ledger, ledger_left, Written, write_status, render_progress_markdown,
}

pub record IsWritten {W : Type 0} (status : StatusSpec) (before : Ledger) (written : Written W)
    : Type 0 where
  pub done : written.outcome ≡ returned tt
  pub traced : written.ledger.trace ≡ before.trace ++ status ∷ []
  pub latest : written.ledger.latest ≡ some status
  pub reported : written.ledger.progress ≡ some (render_progress_markdown status)

-- The ledgers between the writes, in the order of the writes.
pub data IsBetween (status : StatusSpec) (before : Ledger) : Ledger → Type 0 where
  untouched : IsBetween status before before
  cut_off : IsBetween status before (record before { torn = true })
  traced_only : IsBetween status before (record before { trace = before.trace ++ status ∷ [] })
  traced_latest :
      IsBetween status before
        (record before { trace = before.trace ++ status ∷ []; latest = some status })
  all_written : IsBetween status before (record before {
    trace = before.trace ++ status ∷ [];
    latest = some status;
    progress = some (render_progress_markdown status);
  })

-- A write that throws has done some of the writes, from the first on.
pub record IsThrown {W : Type 0} (status : StatusSpec) (before : Ledger) (written : Written W)
    : Type 0 where
  pub message : String
  pub thrown : written.outcome ≡ threw message
  pub between : IsBetween status before written.ledger

-- The trace of such a ledger is the one before or has the status behind it.
pub between-traced :
    {status : StatusSpec} {before after : Ledger}
    → IsBetween status before after
    → (after.trace ≡ before.trace) ⊎ (after.trace ≡ before.trace ++ status ∷ [])
between-traced untouched = inl refl
between-traced cut_off = inl refl
between-traced traced_only = inr refl
between-traced traced_latest = inr refl
between-traced all_written = inr refl

left-IsBetween :
    {status : StatusSpec} {before middle after : Ledger} (left : Left)
    → IsBetween status before middle
    → IsBetween status before after
    → IsBetween status before (ledger_left left middle middle after)
left-IsBetween Left.unchanged h k = h
left-IsBetween Left.cut_off h k = h
left-IsBetween Left.whole h k = k

appended-IsBetween :
    (status : StatusSpec) (before : Ledger) (left : Left)
    → IsBetween status before (
        ledger_left left before
          (record before { torn = true })
          (record before { trace = before.trace ++ status ∷ [] }))
appended-IsBetween status before Left.unchanged = untouched
appended-IsBetween status before Left.cut_off = IsBetween.cut_off
appended-IsBetween status before Left.whole = traced_only

-- The writing of a status ends in one of two ways. It returns, and then the status is the last of
-- the trace and the latest status, and the report is the one of that status; or it throws, and
-- then the writes of the trace, the latest status and the report, in this order, are done up to
-- some point, where the text that is appended to the trace may be cut off.
pub write_status_cases :
    {W : Type 0} (host : Host W) (run_dir : String) (status : StatusSpec) (ledger : Ledger) (w : W)
    → IsWritten status ledger (write_status host run_dir status ledger w)
      ⊎ IsThrown status ledger (write_status host run_dir status ledger w)
unfolding write_status
write_status_cases {W} host run_dir status ledger w =
    let at = λ (name : String). cat (run_dir ∷ name ∷ []) in
    elim (Attempt-cases (host.write_file (cat (run_dir ∷ "/evidence" ∷ [])) w)) [
      | inr (m, e) ↦
          throws m (ground (arith, e)) (ground (arith, e))
            (left-IsBetween (host.left_behind (at "/evidence") w) untouched untouched)
      | inl (w1, e) ↦
          elim (Attempt-cases (host.write_file (cat (run_dir ∷ "/trace.jsonl" ∷ [])) w1)) [
            | inr (m, f) ↦
                throws m (ground (arith, e, f)) (ground (arith, e, f))
                  (appended-IsBetween status ledger (host.left_behind (at "/trace.jsonl") w1))
            | inl (w2, f) ↦
                elim (Attempt-cases
                  (host.write_file (cat (run_dir ∷ "/status.latest.json" ∷ [])) w2)) [
                    | inr (m, g) ↦ throws m (ground (arith, e, f, g)) (ground (arith, e, f, g)) (
                        left-IsBetween (host.left_behind (at "/status.latest.json") w2) traced_only
                          traced_latest)
                    | inl (w3, g) ↦
                        elim (Attempt-cases
                          (host.write_file (cat (run_dir ∷ "/progress.md" ∷ [])) w3)) [
                            | inr (m, k) ↦
                                throws m (ground (arith, e, f, g, k)) (ground (arith, e, f, g, k)) (
                                  left-IsBetween (host.left_behind (at "/progress.md") w3)
                                    traced_latest all_written)
                            | inl (w4, k) ↦ inl (record {
                              done = ground (arith, e, f, g, k);
                              traced = ground (arith, e, f, g, k);
                              latest = ground (arith, e, f, g, k);
                              reported = ground (arith, e, f, g, k);
                            })
                          ]
                  ]
          ]
    ]
  where
    throws :
        {after : Ledger} (m : String)
        → (write_status host run_dir status ledger w).outcome ≡ threw m
        → (write_status host run_dir status ledger w).ledger ≡ after
        → IsBetween status ledger after
        → IsWritten status ledger (write_status host run_dir status ledger w)
          ⊎ IsThrown status ledger (write_status host run_dir status ledger w)
    throws m t e b =
        inr
          (record { message = m; thrown = t; between = subst (IsBetween status ledger) (sym e) b })
