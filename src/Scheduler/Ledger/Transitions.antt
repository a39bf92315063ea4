-- ===== src/Scheduler/Ledger/Transitions.antt =====
-- scheduler.rs: what each transition does to the balance and to the keys of the table.
use download_manager.Base.{
  ℕ, ◌+◌, ◌≡◌, refl, ap, Option, none, some, [], arith, tally, lookup, erase, Unique, subst,
  some_inj, lookup-erase, u32, tally-insert, tally-erase, tally-append, Option-cases, inl, inr,
}
use download_manager.Error.{Error, Result, ok, err, unknown}
use download_manager.Job.{
  Job, JobState, running, pausing, cancelling, WorkerResult, finished, stopped,
}
use download_manager.Job.Methods
use download_manager.Job.Methods.{waiters_of}
use download_manager.Storage.Discard.{discard_partial}
use download_manager.Scheduler.State.{Env, Scheduler, schedule, cancel_job, cancellation}
use download_manager.Scheduler.Transition.{
  on_dispatch, on_retry_elapsed, on_pause, on_resume, on_cancel, on_worker, settle, pause_job,
  retry_after,
}
use download_manager.Scheduler.Backoff.{next_delay, backoff_strategy}
use download_manager.Scheduler.Ledger.{held, entry, balance, paid-notify, paid-finalize, paid-pause}

module _ {W : Type 0} (env : Env W) (ack res : ℕ → ℕ) (id : ℕ) (s : Scheduler W) where
  pub on_dispatch-balance : balance ack res (on_dispatch id s) ≡ balance ack res s
  unfolding on_dispatch
  on_dispatch-balance = grind (arith, tally-insert)

  pub on_retry_elapsed-balance :
      (attempt : ℕ) → balance ack res (on_retry_elapsed id attempt s) ≡ balance ack res s
  unfolding on_retry_elapsed
  on_retry_elapsed-balance attempt = grind (arith, tally-insert)

  -- A pause or a resume owes one more answer.
  pub on_pause-balance : (a : ℕ) → balance ack res (on_pause env id a s) ≡ balance ack res s + ack a
  unfolding on_pause Methods.pause
  on_pause-balance a = elim (Option-cases (lookup id s.jobs)) [
    | inl missing ↦ grind arith
    | inr (job, found) ↦ grind (
      arith,
      tally-insert,
      tally-append,
      paid-notify ack res (waiters_of job.state) (ok tt) s.log,
    )
  ]

  pub on_resume-balance :
      (a : ℕ) → balance ack res (on_resume env id a s) ≡ balance ack res s + ack a
  unfolding on_resume
  on_resume-balance a = grind (arith, tally-insert)

  pub on_cancel-balance : Unique s.jobs → balance ack res (on_cancel env id s) ≡ balance ack res s
  unfolding on_cancel cancel_job
  on_cancel-balance u = elim (Option-cases (lookup id s.jobs)) [
    | inl missing ↦ grind arith
    | inr (job, found) ↦
        let cleaned = discard_partial env.fs job.request.destination s.disk in
        grind (
          arith,
          tally-insert,
          tally-erase (entry ack res) id s.jobs (u id),
          paid-notify ack res (waiters_of job.state) (err Error.cancelled) s.log,
          paid-finalize ack res env.http job (cancellation cleaned.0) s.log,
        )
  ]

  pub schedule-balance :
      (job : Job)
      → lookup job.id s.jobs ≡ none
      → balance ack res (schedule job s) ≡ balance ack res s + held ack res job
  unfolding schedule
  schedule-balance job new = grind (arith, tally-insert)

  cancel_job-balance :
      (job : Job) → balance ack res (cancel_job env job s) ≡ balance ack res s + held ack res job
  unfolding cancel_job
  cancel_job-balance job =
      let cleaned = discard_partial env.fs job.request.destination s.disk in
      omega (arith, paid-finalize ack res env.http job (cancellation cleaned.0) s.log)

  pause_job-balance :
      (job : Job)
      → lookup id s.jobs ≡ none
      → balance ack res (pause_job env id job s) ≡ balance ack res s + held ack res job
  pause_job-balance job gone = ground (
    arith,
    paid-pause ack res job s.log,
    tally-insert (entry ack res) id (Methods.pause job s.log).0 s.jobs,
  )

  -- The job is out of the table when the arms are tried, and owes what it owed there.
  module _ (job : Job) (gone : lookup id s.jobs ≡ none) where
    retry_after-balance :
        (delay : Option ℕ) (t : Scheduler W)
        → waiters_of job.state ≡ []
        → retry_after env delay id job s ≡ some t
        → balance ack res t ≡ balance ack res s + held ack res job
    unfolding Methods.retry
    retry_after-balance none t idle e = cc
    retry_after-balance (some delay) t idle e = ground (
      arith,
      ap (tally ack) idle,
      tally-insert (entry ack res) id (Methods.retry job delay s.log).0 s.jobs,
    )

    settle_error-balance :
        (state : JobState) (error : Error) {t : Scheduler W}
        → job.state ≡ state
        → settle env state (err error) id job s ≡ some t
        → balance ack res t ≡ balance ack res s + held ack res job
    settle_error-balance cancelling error st e =
        subst (λ u. balance ack res u ≡ balance ack res s + held ack res job) (some_inj e)
          (cancel_job-balance job)
    settle_error-balance (pausing _) error st e = ground (
      arith,
      paid-finalize ack res env.http job (err error) s.log,
      pause_job-balance (record job { attempt = u32 (job.attempt + 1) }) gone,
    )
    settle_error-balance _ error {t = t} st e = ground (
      arith,
      paid-finalize ack res env.http job (err error) s.log,
      retry_after-balance (next_delay backoff_strategy job.attempt) t,
    )

    settle-balance :
        (state : JobState) (result : Result WorkerResult) {t : Scheduler W}
        → job.state ≡ state
        → settle env state result id job s ≡ some t
        → balance ack res t ≡ balance ack res s + held ack res job
    settle-balance state (ok (finished r)) st e =
        ground (arith, paid-finalize ack res env.http job (ok r) s.log)
    settle-balance state (err error) st e = settle_error-balance state error st e
    settle-balance cancelling (ok stopped) st e = ground (arith, cancel_job-balance job)
    settle-balance (running _) (ok stopped) st e = ground (arith, cancel_job-balance job)
    settle-balance (pausing _) (ok stopped) st e = ground (arith, pause_job-balance job gone)
    settle-balance _ (ok stopped) st e = ground (
      arith,
      paid-finalize ack res env.http job (err (unknown "invalid worker state transition")) s.log,
    )

module _ {W : Type 0} (env : Env W) (ack res : ℕ → ℕ) (id : ℕ) (s : Scheduler W) where
  -- A worker's result pays what is due and owes nothing new.
  pub on_worker-balance :
      (result : Result WorkerResult) {t : Scheduler W}
      → Unique s.jobs
      → on_worker env id result s ≡ some t
      → balance ack res t ≡ balance ack res s
  unfolding on_worker
  on_worker-balance result u e = elim (Option-cases (lookup id s.jobs)) [
    | inl missing ↦ grind arith
    | inr (job, found) ↦
        let taken : Scheduler W = record s { jobs = erase id s.jobs } in
        grind (
          arith,
          tally-erase (entry ack res) id s.jobs (u id),
          settle-balance env ack res id taken job (grind (arith, lookup-erase)) job.state result
              refl (rw (found, on_worker) at e),
        )
  ]
