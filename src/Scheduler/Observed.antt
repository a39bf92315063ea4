-- ===== src/Scheduler/Observed.antt =====
-- scheduler.rs: what the events of a download tell about it.
pub mod Transitions
pub mod Settling
pub mod Rounds
use download_manager.Base.{
  ℕ, ◌≡◌, refl, Bool, true, false, ◌&&◌, Option, none, some, List, [], ◌∷◌, arith, ◌==◌,
  if◌then◌else◌, lookup, erase, lookup-insert, lookup-erase, Option-cases, inl, inr, subst,
  some_inj, u32, ◌+◌,
}
use download_manager.Http.{StatusCode}
use download_manager.Error.{Error, Result, ok, err}
use download_manager.Events.{EventKind}
use download_manager.Events
use download_manager.Job.{
  Job, JobState, WorkerResult, finished, stopped, DownloadResult, Effect, Log, broadcast,
  acknowledge,
}
use download_manager.Job
use download_manager.Job.Methods
use download_manager.Job.Methods.{notify, finalize, final_kind}
use download_manager.Storage.Discard.{discard_partial}
use download_manager.Scheduler.State.{Env, Scheduler, schedule, cancel_job, cancellation}
use download_manager.Scheduler.Transition.{
  on_dispatch, on_retry_elapsed, on_pause, on_resume, on_cancel, on_worker, settle, finish,
  pause_job, retry_after,
}
use download_manager.Scheduler.Backoff.{next_delay, backoff_strategy}
use download_manager.Scheduler.Placed.{active_at}
use download_manager.Scheduler.Diagram.{
  Stage, absent, queued, running, retrying, pausing, paused, cancelling, stage, stage_of,
}

-- The stage that an event announces.
abbrev pub announced : EventKind → Stage
announced Events.queued = queued
announced Events.started = running
announced (Events.retry_scheduled _ _) = retrying
announced Events.pause_started = pausing
announced Events.paused = paused
announced Events.cancellation_started = cancelling
announced Events.cancelled = absent
announced Events.completed = absent
announced (Events.failed _) = absent

-- What a listener takes a download to be: what the last event about it announced.
abbrev pub observed : ℕ → Log → Stage
observed i [] = absent
observed i (broadcast event ∷ log) = if event.id == i then announced event.kind else observed i log
observed i (_ ∷ log) = observed i log

-- The events that may follow, stage by stage: the grammar of a download's events.
abbrev pub may_emit : Stage → EventKind → Bool
may_emit absent Events.queued = true
may_emit queued Events.started = true
may_emit queued Events.paused = true
may_emit queued Events.cancelled = true
may_emit queued (Events.failed _) = true
may_emit running (Events.retry_scheduled _ _) = true
may_emit running Events.pause_started = true
may_emit running Events.cancellation_started = true
may_emit running Events.cancelled = true
may_emit running Events.completed = true
may_emit running (Events.failed _) = true
may_emit retrying Events.queued = true
may_emit retrying Events.paused = true
may_emit retrying Events.cancelled = true
may_emit retrying (Events.failed _) = true
may_emit pausing Events.paused = true
may_emit pausing Events.cancellation_started = true
may_emit pausing Events.cancelled = true
may_emit pausing Events.completed = true
may_emit pausing (Events.failed _) = true
may_emit paused Events.queued = true
may_emit paused Events.cancelled = true
may_emit paused (Events.failed _) = true
may_emit cancelling Events.cancelled = true
may_emit cancelling Events.completed = true
may_emit cancelling (Events.failed _) = true
may_emit _ _ = false

-- Every event about the download was allowed where it came.
abbrev pub orderly : ℕ → Log → Bool
orderly i [] = true
orderly i (broadcast event ∷ log) =
    (if event.id == i then may_emit (observed i log) event.kind else true) && orderly i log
orderly i (_ ∷ log) = orderly i log

abbrev pub NamedAt : ℕ → Option Job → Type 0
NamedAt i none = Unit {0}
NamedAt i (some job) = job.id ≡ i

pub record Observed {W : Type 0} (i : ℕ) (s : Scheduler W) : Type 0 where
  pub named : NamedAt i (lookup i s.jobs)
  pub seen : observed i s.log ≡ stage (lookup i s.jobs)
  pub ordered : orderly i s.log ≡ true

module _ (i : ℕ) where
  -- Acknowledgements are no events.
  pub notify_lem :
      (waiters : List ℕ) (result : Result (Unit {0})) (log : Log)
      → (observed i (notify waiters result log) ≡ observed i log)
        × (orderly i (notify waiters result log) ≡ orderly i log)
  unfolding notify
  notify_lem [] result log = ground arith
  notify_lem (w ∷ ws) result log = ground (arith, notify_lem ws result (acknowledge w result ∷ log))

  -- A final result ends the download that it is about.
  pub finalize_lem :
      (http : StatusCode) (job : Job) (result : Result DownloadResult) (log : Log)
      → (observed i (finalize http job result log)
          ≡ (if job.id == i then absent else observed i log))
        × (orderly i (finalize http job result log)
            ≡ (if job.id == i then may_emit (observed i log) (final_kind http result) else true)
              && orderly i log)
  unfolding finalize
  finalize_lem http job result log =
      ground (arith, notify_lem (Methods.waiters_of job.state) (Methods.acknowledged result) log)

  pub pause_lem :
      (job : Job) (log : Log)
      → (observed i (Methods.pause job log).1 ≡ (if job.id == i then paused else observed i log))
        × (orderly i (Methods.pause job log).1
            ≡ (if job.id == i then may_emit (observed i log) Events.paused else true)
              && orderly i log)
  unfolding Methods.pause
  pause_lem job log = ground (arith, notify_lem (Methods.waiters_of job.state) (ok tt) log)

pub paused_job :
    (job : Job) (log : Log)
    → ((Methods.pause job log).0.id ≡ job.id) × ((Methods.pause job log).0.state ≡ Job.paused)
unfolding Methods.pause
paused_job job log = (refl, refl)
