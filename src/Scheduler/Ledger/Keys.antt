-- ===== src/Scheduler/Ledger/Keys.antt =====
-- scheduler.rs: every transition leaves the table with one entry to an id.
use download_manager.Base.{
  ℕ, ◌≡◌, subst, some_inj, some, arith, lookup, erase, Unique, insert-Unique, erase-Unique,
  Option-cases, inl, inr,
}
use download_manager.Error.{Result}
use download_manager.Job.{Job, JobState, queued, WorkerResult}
use download_manager.Job.Methods
use download_manager.Scheduler.State.{Env, Scheduler, schedule, cancel_job}
use download_manager.Scheduler.Transition.{
  on_dispatch, on_retry_elapsed, on_pause, on_resume, on_cancel, on_worker, settle,
}

module _ {W : Type 0} (env : Env W) (id : ℕ) (s : Scheduler W) (u : Unique s.jobs) where
  pub on_dispatch-Unique : Unique (on_dispatch id s).jobs
  unfolding on_dispatch
  on_dispatch-Unique k = grind (arith, insert-Unique)

  pub on_retry_elapsed-Unique : (attempt : ℕ) → Unique (on_retry_elapsed id attempt s).jobs
  unfolding on_retry_elapsed
  on_retry_elapsed-Unique attempt k = grind (arith, insert-Unique)

  pub on_pause-Unique : (a : ℕ) → Unique (on_pause env id a s).jobs
  unfolding on_pause Methods.pause
  on_pause-Unique a k = grind (arith, insert-Unique)

  pub on_resume-Unique : (a : ℕ) → Unique (on_resume env id a s).jobs
  unfolding on_resume
  on_resume-Unique a k = grind (arith, insert-Unique)

  pub on_cancel-Unique : Unique (on_cancel env id s).jobs
  unfolding on_cancel cancel_job
  on_cancel-Unique k = grind (arith, insert-Unique, erase-Unique)

  pub schedule-Unique : (job : Job) → Unique (schedule job s).jobs
  unfolding schedule
  schedule-Unique job k = grind (arith, insert-Unique)

module _ {W : Type 0} (env : Env W) (id : ℕ) where
  settle-Unique :
      (state : JobState) (result : Result WorkerResult) (job : Job) (s : Scheduler W)
      {t : Scheduler W}
      → Unique s.jobs
      → settle env state result id job s ≡ some t
      → Unique t.jobs
  unfolding cancel_job Methods.pause Methods.retry
  settle-Unique queued result job s u e k = grind (arith, insert-Unique)
  settle-Unique _ result job s u e k = grind (arith, insert-Unique)

  pub on_worker-Unique :
      (result : Result WorkerResult) (s : Scheduler W) {t : Scheduler W}
      → Unique s.jobs
      → on_worker env id result s ≡ some t
      → Unique t.jobs
  unfolding on_worker
  on_worker-Unique result s u e = elim (Option-cases (lookup id s.jobs)) [
    | inl missing ↦ subst (λ v. Unique v.jobs) (some_inj (rw (missing, on_worker) at e)) u
    | inr (job, found) ↦
        settle-Unique job.state result job (record s { jobs = erase id s.jobs })
          (erase-Unique id s.jobs u) (rw (found, on_worker) at e)
  ]
