-- ===== src/Scheduler/Observed/Transitions.antt =====
-- scheduler.rs: every transition but a worker's result tells by an event what it has done.
use download_manager.Base.{
  ℕ, ◌≡◌, none, arith, lookup, lookup-insert, lookup-erase, Option-cases, inl, inr,
}
use download_manager.Error.{Error, err}
use download_manager.Job.{
  Job, JobState, WorkerResult, finished, stopped, DownloadResult, Effect, Log, broadcast,
  acknowledge,
}
use download_manager.Job
use download_manager.Job.Methods
use download_manager.Job.Methods.{notify, finalize, final_kind}
use download_manager.Storage.Discard.{discard_partial}
use download_manager.Scheduler.State.{Env, Scheduler, schedule, cancel_job, cancellation}
use download_manager.Scheduler.Transition.{
  on_dispatch, on_retry_elapsed, on_pause, on_resume, on_cancel,
}
use download_manager.Scheduler.Observed.{
  NamedAt, Observed, notify_lem, finalize_lem, pause_lem, paused_job,
}

module _ {W : Type 0} (i : ℕ) (s : Scheduler W) (o : Observed i s) (id : ℕ) where
  pub on_dispatch-Observed : Observed i (on_dispatch id s)
  unfolding on_dispatch
  on_dispatch-Observed = grind (arith, lookup-insert)

  pub on_retry_elapsed-Observed : (attempt : ℕ) → Observed i (on_retry_elapsed id attempt s)
  unfolding on_retry_elapsed
  on_retry_elapsed-Observed attempt = grind (arith, lookup-insert)

  pub schedule-Observed :
      (job : Job)
      → lookup job.id s.jobs ≡ none
      → job.state ≡ Job.queued
      → Observed i (schedule job s)
  unfolding schedule
  schedule-Observed job new e = grind (arith, lookup-insert)

  module _ (env : Env W) where
    pub on_resume-Observed : (a : ℕ) → Observed i (on_resume env id a s)
    unfolding on_resume
    on_resume-Observed a = grind (arith, lookup-insert)

    module _ (named : NamedAt id (lookup id s.jobs)) where
      pub on_pause-Observed : (a : ℕ) → Observed i (on_pause env id a s)
      unfolding on_pause
      on_pause-Observed a = elim (Option-cases (lookup id s.jobs)) [
        | inl missing ↦ grind arith
        | inr (job, found) ↦
            grind (arith, lookup-insert, pause_lem i job s.log, paused_job job s.log)
      ]

      pub on_cancel-Observed : Observed i (on_cancel env id s)
      unfolding on_cancel cancel_job
      on_cancel-Observed = elim (Option-cases (lookup id s.jobs)) [
        | inl missing ↦ grind arith
        | inr (job, found) ↦
            let cleaned = discard_partial env.fs job.request.destination s.disk in
            grind (
              arith,
              lookup-insert,
              lookup-erase,
              notify_lem i (Methods.waiters_of job.state) (err Error.cancelled) s.log,
              finalize_lem i env.http job (cancellation cleaned.0) s.log,
            )
      ]
