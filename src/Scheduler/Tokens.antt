-- ===== src/Scheduler/Tokens.antt =====
-- scheduler.rs: the token that stops a worker.
pub mod Rounds
use download_manager.Base.{
  ℕ, ◌≡◌, ◌≤◌, refl, Bool, true, false, bit, ◌||◌, Option, none, some, some_inj, List, [], ◌∷◌,
  arith, ◌==◌, if◌then◌else◌, lookup, erase, tally, tally-append, lookup-insert, lookup-erase,
  Option-cases, inl, inr,
}
use download_manager.Error.{Result, ok, err}
use download_manager.Http.{StatusCode}
use download_manager.Job.{
  Job, JobState, DownloadResult, queued, running, pausing, cancelling, WorkerResult, Log,
  cancel_stop, acknowledge,
}
use download_manager.Job.Methods
use download_manager.Job.Methods.{notify, finalize}
use download_manager.Scheduler.State.{Env, Scheduler, Worker, schedule, cancel_job, cancellation}
use download_manager.Storage.Discard.{discard_partial}
use download_manager.Scheduler.Transition.{
  on_dispatch, on_retry_elapsed, on_pause, on_resume, on_cancel, on_worker, settle, pause_job,
}

-- One token.
module _ (token : ℕ) where
  abbrev pub is_stopped : Log → Bool
  is_stopped [] = false
  is_stopped (cancel_stop stop ∷ log) = (stop == token) || is_stopped log
  is_stopped (_ ∷ log) = is_stopped log

  -- How many workers of a job may hold the token: the one that the job keeps, if it runs; and if it is
  -- to stop, one whose token has been cancelled.
  abbrev pub may_hold : Log → Option Job → ℕ
  may_hold log none = 0
  may_hold log (some job) = elim job.state [
    | running stop ↦ bit (stop == token)
    | pausing _ ↦ bit (is_stopped log)
    | cancelling ↦ bit (is_stopped log)
    | _ ↦ 0
  ]

  abbrev pub holder : ℕ → Worker → ℕ
  holder i w = if w.id == i then bit (w.stop == token) else 0

  pub record Held {W : Type 0} (i : ℕ) (s : Scheduler W) : Type 0 where
    pub held : tally (holder i) s.workers ≤ may_hold s.log (lookup i s.jobs)

  notify-stopped :
      (waiters : List ℕ) (result : Result (Unit {0})) (log : Log)
      → is_stopped (notify waiters result log) ≡ is_stopped log
  unfolding notify
  notify-stopped [] result log = refl
  notify-stopped (w ∷ ws) result log = notify-stopped ws result (acknowledge w result ∷ log)

  finalize-stopped :
      (http : StatusCode) (job : Job) (result : Result DownloadResult) (log : Log)
      → is_stopped (finalize http job result log) ≡ is_stopped log
  unfolding finalize
  finalize-stopped http job result log =
      ground
        (arith, notify-stopped (Methods.waiters_of job.state) (Methods.acknowledged result) log)

  cancel_job-stopped :
      {W : Type 0} (env : Env W) (job : Job) (s : Scheduler W)
      → (is_stopped (cancel_job env job s).log ≡ is_stopped s.log)
        × ((cancel_job env job s).jobs ≡ s.jobs)
        × ((cancel_job env job s).workers ≡ s.workers)
  unfolding cancel_job
  cancel_job-stopped env job s = (
    finalize-stopped env.http job
        (cancellation (discard_partial env.fs job.request.destination s.disk).0) s.log,
    refl,
    refl,
  )

  module _ {W : Type 0} (i : ℕ) (s : Scheduler W) (h : Held i s) where
    pub on_dispatch-Held : (id : ℕ) → Held i (on_dispatch id s)
    unfolding on_dispatch
    on_dispatch-Held id = grind (arith, lookup-insert, tally-append)

    pub on_retry_elapsed-Held : (id attempt : ℕ) → Held i (on_retry_elapsed id attempt s)
    unfolding on_retry_elapsed
    on_retry_elapsed-Held id attempt = grind (arith, lookup-insert)

    pub on_pause-Held : (env : Env W) (id ack : ℕ) → Held i (on_pause env id ack s)
    unfolding on_pause Methods.pause
    on_pause-Held env id ack = grind (arith, lookup-insert, notify-stopped)

    pub on_resume-Held : (env : Env W) (id ack : ℕ) → Held i (on_resume env id ack s)
    unfolding on_resume
    on_resume-Held env id ack = grind (arith, lookup-insert)

    pub on_cancel-Held : (env : Env W) (id : ℕ) → Held i (on_cancel env id s)
    unfolding on_cancel
    on_cancel-Held env id =
        grind (arith, lookup-insert, lookup-erase, notify-stopped, cancel_job-stopped)

    pub schedule-Held :
        (job : Job) → lookup job.id s.jobs ≡ none → job.state ≡ queued → Held i (schedule job s)
    unfolding schedule
    schedule-Held job fresh e = grind (arith, lookup-insert)

  -- A worker's result comes when its future has left the set.
  module _ {W : Type 0} (env : Env W) (i id : ℕ) where
    settle-Held :
        (state : JobState) (result : Result WorkerResult) (job : Job) (s : Scheduler W)
        {t : Scheduler W}
        → Held i s
        → lookup id s.jobs ≡ none
        → settle env state result id job s ≡ some t
        → Held i t
    unfolding Methods.pause Methods.retry
    settle-Held queued result job s p gone e =
        grind (arith, lookup-insert, notify-stopped, finalize-stopped, cancel_job-stopped)
    settle-Held _ result job s p gone e =
        grind (arith, lookup-insert, notify-stopped, finalize-stopped, cancel_job-stopped)

    pub on_worker-Held :
        (result : Result WorkerResult) (s : Scheduler W) {t : Scheduler W}
        → tally (holder i) s.workers ≤ (if id == i then 0 else may_hold s.log (lookup i s.jobs))
        → on_worker env id result s ≡ some t
        → Held i t
    unfolding on_worker
    on_worker-Held result s h e = elim (Option-cases (lookup id s.jobs)) [
      | inl missing ↦ grind arith
      | inr (job, found) ↦
          settle-Held job.state result job (record s { jobs = erase id s.jobs })
            (grind (arith, lookup-erase)) (grind (arith, lookup-erase)) (rw (found, on_worker) at e)
    ]
