-- ===== src/Scheduler/Observed/Settling.antt =====
-- scheduler.rs: a worker's result tells by an event what it has done.
use download_manager.Base.{
  ℕ, ◌≡◌, refl, true, Option, none, some, List, arith, ◌==◌, if◌then◌else◌, lookup, erase,
  lookup-insert, lookup-erase, Option-cases, inl, inr, subst, some_inj, u32, ◌+◌,
}
use download_manager.Error.{Result, ok, err}
use download_manager.Job.{
  Job, JobState, WorkerResult, finished, stopped, DownloadResult, Effect, Log, broadcast,
  acknowledge,
}
use download_manager.Job
use download_manager.Job.Methods
use download_manager.Job.Methods.{notify, finalize, final_kind}
use download_manager.Storage.Discard.{discard_partial}
use download_manager.Scheduler.State.{Env, Scheduler, cancel_job, cancellation}
use download_manager.Scheduler.Transition.{on_worker, settle, finish, pause_job, retry_after}
use download_manager.Scheduler.Backoff.{next_delay, backoff_strategy}
use download_manager.Scheduler.Placed.{active_at}
use download_manager.Scheduler.Diagram.{stage, stage_of}
use download_manager.Scheduler.Observed.{
  observed, orderly, NamedAt, Observed, finalize_lem, pause_lem, paused_job,
}

-- While a worker's result is settled, its job is out of the table and still observed.
module _ {W : Type 0} (env : Env W) (i id : ℕ) (job : Job) (s : Scheduler W) (mine : job.id ≡ id)
    (gone : lookup id s.jobs ≡ none) (named : NamedAt i (lookup i s.jobs))
    (seen : observed i s.log ≡ (if id == i then stage_of job.state else stage (lookup i s.jobs)))
    (ordered : orderly i s.log ≡ true) where
  finish-Observed :
      (result : Result DownloadResult)
      → active_at (some job) ≡ 1
      → Observed i (finish env job result s)
  finish-Observed result active = grind (arith, finalize_lem i env.http job result s.log)

  cancel_job-Observed : active_at (some job) ≡ 1 → Observed i (cancel_job env job s)
  unfolding cancel_job
  cancel_job-Observed active =
      let cleaned = discard_partial env.fs job.request.destination s.disk in
      grind (arith, finalize_lem i env.http job (cancellation cleaned.0) s.log)

  pause_job-Observed :
      (waiters : List ℕ) → job.state ≡ Job.pausing waiters → Observed i (pause_job env id job s)
  pause_job-Observed waiters st =
      grind (arith, lookup-insert, pause_lem i job s.log, paused_job job s.log)

  retry_after-Observed :
      (delay : Option ℕ) (stop : ℕ) {t : Scheduler W}
      → job.state ≡ Job.running stop
      → retry_after env delay id job s ≡ some t
      → Observed i t
  unfolding Methods.retry
  retry_after-Observed delay stop st e = grind (arith, lookup-insert)

module _ {W : Type 0} (env : Env W) (i id : ℕ) where
  settle-Observed :
      (state : JobState) (result : Result WorkerResult) (job : Job) (s : Scheduler W)
      {t : Scheduler W}
      → job.state ≡ state
      → active_at (some job) ≡ 1
      → job.id ≡ id
      → lookup id s.jobs ≡ none
      → NamedAt i (lookup i s.jobs)
      → observed i s.log ≡ (if id == i then stage_of job.state else stage (lookup i s.jobs))
      → orderly i s.log ≡ true
      → settle env state result id job s ≡ some t
      → Observed i t
  settle-Observed state (ok (finished r)) job s st active mine gone named seen ordered e =
      subst (Observed i) (some_inj e)
        (finish-Observed env i id job s mine gone named seen ordered (ok r) active)
  settle-Observed Job.cancelling (ok stopped) job s st active mine gone named seen ordered e =
      subst (Observed i) (some_inj e)
        (cancel_job-Observed env i id job s mine gone named seen ordered active)
  settle-Observed Job.cancelling (err error) job s st active mine gone named seen ordered e =
      subst (Observed i) (some_inj e)
        (cancel_job-Observed env i id job s mine gone named seen ordered active)
  settle-Observed (Job.pausing ws) (ok stopped) job s st active mine gone named seen ordered e =
      subst (Observed i) (some_inj e)
        (pause_job-Observed env i id job s mine gone named seen ordered ws st)
  settle-Observed (Job.pausing ws) (err error) job s st active mine gone named seen ordered e =
      ground (
        arith,
        finish-Observed env i id job s mine gone named seen ordered (err error) active,
        pause_job-Observed env i id (record job { attempt = u32 (job.attempt + 1) }) s mine gone
            named seen ordered ws st,
      )
  settle-Observed (Job.running stop) (ok stopped) job s st active mine gone named seen ordered e =
      subst (Observed i) (some_inj e)
        (cancel_job-Observed env i id job s mine gone named seen ordered active)
  settle-Observed (Job.running stop) (err error) job s {t = t} st active mine gone named seen
        ordered e =
      ground (
        arith,
        finish-Observed env i id job s mine gone named seen ordered (err error) active,
        retry_after-Observed env i id job s mine gone named seen ordered
            (next_delay backoff_strategy job.attempt) stop {t = t} st,
      )
  settle-Observed _ result job s st active mine gone named seen ordered e = absurd (ground arith)

  pub on_worker-Observed :
      (result : Result WorkerResult) (s : Scheduler W) {t : Scheduler W}
      → active_at (lookup id s.jobs) ≡ 1
      → NamedAt id (lookup id s.jobs)
      → Observed i s
      → on_worker env id result s ≡ some t
      → Observed i t
  unfolding on_worker
  on_worker-Observed result s active mine o e = elim (Option-cases (lookup id s.jobs)) [
    | inl missing ↦ absurd (ground arith)
    | inr (job, found) ↦
        settle-Observed job.state result job (record s { jobs = erase id s.jobs }) refl
          (rw found at active) (rw found at mine) (grind (arith, lookup-erase))
          (grind (arith, lookup-erase)) (grind (arith, lookup-erase)) o.ordered
          (rw (found, on_worker) at e)
  ]
