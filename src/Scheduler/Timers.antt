-- ===== src/Scheduler/Timers.antt =====
-- scheduler.rs: the timers of retries.
pub mod Rounds
use download_manager.Base.{
  ℕ, ◌+◌, ◌≤◌, ◌<◌, ◌≡◌, Option, none, some, some_inj, [], ◌∷◌, arith, bit, ◌==◌, ◌&&◌, leb, lookup,
  erase, tally, tally-append, lookup-insert, lookup-erase, Option-cases, inl, inr, subst,
}
use download_manager.Error.{Result}
use download_manager.Job.{Job, JobState, queued, running, WorkerResult}
use download_manager.Job.Methods
use download_manager.Scheduler.Retries.{Bounded}
use download_manager.Scheduler.State.{Env, Scheduler, schedule, cancel_job}
use download_manager.Scheduler.Transition.{
  on_dispatch, on_retry_elapsed, on_pause, on_resume, on_cancel, on_worker, settle, is_retrying,
}

-- The timer for an attempt of a job.
abbrev pub timer : ℕ → ℕ → ℕ × ℕ → ℕ
timer i a (id, attempt) = bit (id == i && attempt == a)

abbrev pub retry_at : ℕ → Option Job → ℕ
retry_at a none = 0
retry_at a (some job) = bit (is_retrying job.state a)

abbrev pub reached : ℕ → Option Job → ℕ
reached a none = 1
reached a (some job) = bit (leb a job.attempt)

-- There is one timer at most for an attempt, none for an attempt to come, and one if the job waits
-- for it.
pub record Timed {W : Type 0} (i a : ℕ) (s : Scheduler W) : Type 0 where
  pub once : tally (timer i a) s.delayed ≤ reached a (lookup i s.jobs)
  pub armed : retry_at a (lookup i s.jobs) ≤ tally (timer i a) s.delayed

module _ {W : Type 0} (i a : ℕ) (s : Scheduler W) (h : Timed i a s) where
  pub on_dispatch-Timed : (id : ℕ) → Timed i a (on_dispatch id s)
  unfolding on_dispatch
  on_dispatch-Timed id = grind (arith, lookup-insert)

  pub on_pause-Timed : (env : Env W) (id ack : ℕ) → Timed i a (on_pause env id ack s)
  unfolding on_pause Methods.pause
  on_pause-Timed env id ack = grind (arith, lookup-insert)

  pub on_resume-Timed : (env : Env W) (id ack : ℕ) → Timed i a (on_resume env id ack s)
  unfolding on_resume
  on_resume-Timed env id ack = grind (arith, lookup-insert)

  pub on_cancel-Timed : (env : Env W) (id : ℕ) → Timed i a (on_cancel env id s)
  unfolding on_cancel cancel_job
  on_cancel-Timed env id = grind (arith, lookup-insert, lookup-erase)

  pub schedule-Timed :
      (job : Job)
      → job.state ≡ queued
      → tally (timer job.id a) s.delayed ≡ 0
      → Timed i a (schedule job s)
  unfolding schedule
  schedule-Timed job st e = grind (arith, lookup-insert)

-- A timer that has gone off is out of `delayed`.
module _ {W : Type 0} (i a id attempt : ℕ) (s : Scheduler W) where
  pub on_retry_elapsed-Timed :
      tally (timer i a) s.delayed + timer i a (id, attempt) ≤ reached a (lookup i s.jobs)
      → retry_at a (lookup i s.jobs) ≤ tally (timer i a) s.delayed + timer i a (id, attempt)
      → Timed i a (on_retry_elapsed id attempt s)
  unfolding on_retry_elapsed
  on_retry_elapsed-Timed h k = grind (arith, lookup-insert)

module _ {W : Type 0} (env : Env W) (i a id : ℕ) where
  -- The job is out of the table when the arms are tried.
  settle-Timed :
      (state : JobState) (result : Result WorkerResult) (job : Job) (s : Scheduler W)
      {t : Scheduler W}
      → Timed i a s
      → tally (timer id a) s.delayed ≤ bit (leb a job.attempt)
      → job.attempt ≤ job.request.config.retries
      → job.request.config.retries < 4294967296
      → lookup id s.jobs ≡ none
      → settle env state result id job s ≡ some t
      → Timed i a t
  unfolding cancel_job Methods.pause Methods.retry
  settle-Timed queued result job s b h k n gone e = grind (arith, lookup-insert, tally-append)
  settle-Timed _ result job s b h k n gone e = grind (arith, lookup-insert, tally-append)

  pub on_worker-Timed :
      (result : Result WorkerResult) (s : Scheduler W) {t : Scheduler W}
      → Timed i a s
      → Timed id a s
      → Bounded 4294967295 id s
      → on_worker env id result s ≡ some t
      → Timed i a t
  unfolding on_worker
  on_worker-Timed result s h own b e = elim (Option-cases (lookup id s.jobs)) [
    | inl missing ↦ subst (Timed i a) (some_inj (rw (missing, on_worker) at e)) h
    | inr (job, found) ↦
        settle-Timed job.state result job (record s { jobs = erase id s.jobs })
          (grind (arith, lookup-erase)) (rw found at own.once) (rw found at b.tried) (ground arith)
          (grind (arith, lookup-erase)) (rw (found, on_worker) at e)
  ]
