-- ===== src/Scheduler/Retries.antt =====
-- scheduler.rs: attempts and their limit.
pub mod Rounds
pub mod Panics
use download_manager.Base.{
  ℕ, ◌+◌, ◌≤◌, ◌<◌, ◌≡◌, Option, none, some, some_inj, [], ◌∷◌, arith, bit, ◌==◌, ◌&&◌, leb, lookup,
  erase, tally, tally-append, lookup-insert, lookup-erase, Option-cases, inl, inr, subst,
}
use download_manager.Error.{Result}
use download_manager.Job.{Job, JobState, queued, running, WorkerResult}
use download_manager.Job.Methods
use download_manager.Scheduler.State.{Env, Scheduler, schedule, cancel_job}
use download_manager.Scheduler.Transition.{
  on_dispatch, on_retry_elapsed, on_pause, on_resume, on_cancel, on_worker, settle, is_retrying,
}

abbrev pub attempt_of : Option Job → ℕ
attempt_of none = 0
attempt_of (some job) = job.attempt

abbrev pub retries_of : Option Job → ℕ
retries_of none = 0
retries_of (some job) = job.request.config.retries

-- A job's attempts stay within its retries, and these within `limit`.
pub record Bounded {W : Type 0} (limit i : ℕ) (s : Scheduler W) : Type 0 where
  pub tried : attempt_of (lookup i s.jobs) ≤ retries_of (lookup i s.jobs)
  pub limited : retries_of (lookup i s.jobs) ≤ limit

module _ {W : Type 0} (limit i : ℕ) (s : Scheduler W) (b : Bounded limit i s) where
  pub on_dispatch-Bounded : (id : ℕ) → Bounded limit i (on_dispatch id s)
  unfolding on_dispatch
  on_dispatch-Bounded id = grind (arith, lookup-insert)

  pub on_retry_elapsed-Bounded : (id attempt : ℕ) → Bounded limit i (on_retry_elapsed id attempt s)
  unfolding on_retry_elapsed
  on_retry_elapsed-Bounded id attempt = grind (arith, lookup-insert)

  pub on_pause-Bounded : (env : Env W) (id ack : ℕ) → Bounded limit i (on_pause env id ack s)
  unfolding on_pause Methods.pause
  on_pause-Bounded env id ack = grind (arith, lookup-insert)

  pub on_resume-Bounded : (env : Env W) (id ack : ℕ) → Bounded limit i (on_resume env id ack s)
  unfolding on_resume
  on_resume-Bounded env id ack = grind (arith, lookup-insert)

  pub on_cancel-Bounded : (env : Env W) (id : ℕ) → Bounded limit i (on_cancel env id s)
  unfolding on_cancel cancel_job
  on_cancel-Bounded env id = grind (arith, lookup-insert, lookup-erase)

  pub schedule-Bounded :
      (job : Job)
      → job.attempt ≡ 0
      → job.request.config.retries ≤ limit
      → Bounded limit i (schedule job s)
  unfolding schedule
  schedule-Bounded job e h = grind (arith, lookup-insert)

module _ {W : Type 0} (env : Env W) (limit i id : ℕ) (small : limit < 4294967296) where
  settle-Bounded :
      (state : JobState) (result : Result WorkerResult) (job : Job) (s : Scheduler W)
      {t : Scheduler W}
      → Bounded limit i s
      → job.attempt ≤ job.request.config.retries
      → job.request.config.retries ≤ limit
      → settle env state result id job s ≡ some t
      → Bounded limit i t
  unfolding cancel_job Methods.pause Methods.retry
  settle-Bounded queued result job s b h k e = grind (arith, lookup-insert)
  settle-Bounded _ result job s b h k e = grind (arith, lookup-insert)

  pub on_worker-Bounded :
      (result : Result WorkerResult) (s : Scheduler W) {t : Scheduler W}
      → Bounded limit i s
      → Bounded limit id s
      → on_worker env id result s ≡ some t
      → Bounded limit i t
  unfolding on_worker
  on_worker-Bounded result s b own e = elim (Option-cases (lookup id s.jobs)) [
    | inl missing ↦ subst (Bounded limit i) (some_inj (rw (missing, on_worker) at e)) b
    | inr (job, found) ↦
        settle-Bounded job.state result job (record s { jobs = erase id s.jobs })
          (grind (arith, lookup-erase)) (rw found at own.tried) (rw found at own.limited)
          (rw (found, on_worker) at e)
  ]
