-- ===== src/Scheduler/Grows.antt =====
-- scheduler.rs: the log only grows. `old` is the log of an earlier state.
pub mod Rounds
use download_manager.Base.{
  ℕ, zero, suc, ◌≡◌, ◌≤◌, refl, Bool, true, false, ◌&&◌, Option, none, some, List, [], ◌∷◌, arith,
  ◌==◌, if◌then◌else◌, lookup, erase, Option-cases, inl, inr, subst, some_inj, u32, ◌+◌, ltb,
  length,
}
use download_manager.Http.{StatusCode}
use download_manager.Error.{Error, Result, ok, err}
use download_manager.Storage.Discard.{discard_partial}
use download_manager.Job.{
  Job, JobState, WorkerResult, finished, stopped, DownloadResult, Effect, Log, acknowledge,
}
use download_manager.Job
use download_manager.Job.Methods
use download_manager.Job.Methods.{notify, finalize}
use download_manager.Scheduler.State.{Env, Scheduler, schedule, cancel_job, cancellation}
use download_manager.Scheduler.Transition.{
  on_dispatch, on_retry_elapsed, on_pause, on_resume, on_cancel, on_worker, settle, finish,
  pause_job, retry_after,
}
use download_manager.Scheduler.Backoff.{next_delay, backoff_strategy}

-- A log when it had so many entries, and what has been written since.
abbrev pub older : ℕ → Log → Log
older n [] = []
older n (effect ∷ log) = let rest = older n log in if ltb (length log) n then effect ∷ log else rest

abbrev pub newer : ℕ → Log → Log
newer n [] = []
newer n (effect ∷ log) = let rest = newer n log in if ltb (length log) n then [] else effect ∷ rest

-- The log had so many entries before it was written on.
pub record Grows (n : ℕ) (old log : Log) : Type 0 where
  pub enough : n ≤ length log
  pub same : older n log ≡ old

pub length-Grows : (log : Log) → Grows (length log) log log
length-Grows [] = record { enough = omega arith; same = refl }
length-Grows (effect ∷ log) = ground arith

module _ (n : ℕ) (old : Log) where
  notify-Grows :
      (waiters : List ℕ) (result : Result (Unit {0})) (log : Log)
      → Grows n old log
      → Grows n old (notify waiters result log)
  unfolding notify
  notify-Grows [] result log g = g
  notify-Grows (w ∷ ws) result log g =
      notify-Grows ws result (acknowledge w result ∷ log) (ground (arith, g.enough, g.same))

  finalize-Grows :
      (http : StatusCode) (job : Job) (result : Result DownloadResult) (log : Log)
      → Grows n old log
      → Grows n old (finalize http job result log)
  unfolding finalize
  finalize-Grows http job result log g =
      ground
        (arith, notify-Grows (Methods.waiters_of job.state) (Methods.acknowledged result) log g)

  module _ {W : Type 0} (env : Env W) (job : Job) (s : Scheduler W) (g : Grows n old s.log) where
    finish-Grows : (result : Result DownloadResult) → Grows n old (finish env job result s).log
    finish-Grows result = finalize-Grows env.http job result s.log g

    cancel_job-Grows : Grows n old (cancel_job env job s).log
    unfolding cancel_job
    cancel_job-Grows =
        let cleaned = discard_partial env.fs job.request.destination s.disk in
        finalize-Grows env.http job (cancellation cleaned.0) s.log g

    pause_job-Grows : (id : ℕ) → Grows n old (pause_job env id job s).log
    unfolding Methods.pause
    pause_job-Grows id = ground (arith, notify-Grows (Methods.waiters_of job.state) (ok tt) s.log g)

    retry_after-Grows :
        (delay : Option ℕ) (id : ℕ) {t : Scheduler W}
        → retry_after env delay id job s ≡ some t
        → Grows n old t.log
    unfolding Methods.retry
    retry_after-Grows delay id e = grind arith

  module _ {W : Type 0} (s : Scheduler W) (g : Grows n old s.log) where
    pub on_dispatch-Grows : (id : ℕ) → Grows n old (on_dispatch id s).log
    unfolding on_dispatch
    on_dispatch-Grows id = ground arith

    pub on_retry_elapsed-Grows : (id attempt : ℕ) → Grows n old (on_retry_elapsed id attempt s).log
    unfolding on_retry_elapsed
    on_retry_elapsed-Grows id attempt = ground arith

    pub schedule-Grows : (job : Job) → Grows n old (schedule job s).log
    unfolding schedule
    schedule-Grows job = ground arith

    module _ (env : Env W) where
      pub on_pause-Grows : (id ack : ℕ) → Grows n old (on_pause env id ack s).log
      unfolding on_pause Methods.pause
      on_pause-Grows id ack = grind (arith, notify-Grows)

      pub on_resume-Grows : (id ack : ℕ) → Grows n old (on_resume env id ack s).log
      unfolding on_resume
      on_resume-Grows id ack = ground arith

      pub on_cancel-Grows : (id : ℕ) → Grows n old (on_cancel env id s).log
      unfolding on_cancel
      on_cancel-Grows id = grind (arith, notify-Grows, cancel_job-Grows)

      settle-Grows :
          (state : JobState) (result : Result WorkerResult) (id : ℕ) (job : Job) {t : Scheduler W}
          → settle env state result id job s ≡ some t
          → Grows n old t.log
      settle-Grows state (ok (finished x)) id job e =
          subst (λ (t : Scheduler W). Grows n old t.log) (some_inj e)
            (finish-Grows env job s g (ok x))
      settle-Grows Job.cancelling (ok stopped) id job e =
          subst (λ (t : Scheduler W). Grows n old t.log) (some_inj e) (cancel_job-Grows env job s g)
      settle-Grows Job.cancelling (err error) id job e =
          subst (λ (t : Scheduler W). Grows n old t.log) (some_inj e) (cancel_job-Grows env job s g)
      settle-Grows (Job.pausing ws) (ok stopped) id job e =
          subst (λ (t : Scheduler W). Grows n old t.log) (some_inj e)
            (pause_job-Grows env job s g id)
      settle-Grows (Job.pausing ws) (err error) id job e = ground (
        arith,
        finish-Grows env job s g (err error),
        pause_job-Grows env (record job { attempt = u32 (job.attempt + 1) }) s g id,
      )
      settle-Grows (Job.running stop) (ok stopped) id job e =
          subst (λ (t : Scheduler W). Grows n old t.log) (some_inj e) (cancel_job-Grows env job s g)
      settle-Grows _ (err error) id job {t = t} e = ground (
        arith,
        finish-Grows env job s g (err error),
        retry_after-Grows env job s g (next_delay backoff_strategy job.attempt) id {t = t},
      )
      settle-Grows _ (ok stopped) id job e =
          subst (λ (t : Scheduler W). Grows n old t.log) (some_inj e) (finish-Grows env job s g _)

  module _ {W : Type 0} (s : Scheduler W) (g : Grows n old s.log) (env : Env W) where
    pub on_worker-Grows :
        (id : ℕ) (result : Result WorkerResult) {t : Scheduler W}
        → on_worker env id result s ≡ some t
        → Grows n old t.log
    unfolding on_worker
    on_worker-Grows id result e = elim (Option-cases (lookup id s.jobs)) [
      | inl missing ↦ grind arith
      | inr (job, found) ↦
          settle-Grows (record s { jobs = erase id s.jobs })
            (record { enough = g.enough; same = g.same }) env job.state result id job
            (rw (found, on_worker) at e)
    ]
