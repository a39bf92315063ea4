-- ===== src/Scheduler/Assigned.antt =====
-- scheduler.rs: a worker is given its job's request and its job's channel of progress.
pub mod Rounds
use download_manager.Base.{
  ℕ, ◌≡◌, refl, Bool, Option, none, some, some_inj, List, [], ◌∷◌, arith, ◌==◌, if◌then◌else◌,
  lookup, erase, keys, length, subst, ap, tally, tally-append, tally-take_at, take_at,
  lookup-insert, lookup-erase, lookup-nil, Option-cases, List-cases, inl, inr,
}
use download_manager.Error.{Result}
use download_manager.Request.{Request}
use download_manager.Job.{Job, JobState, queued, running, pausing, cancelling, WorkerResult}
use download_manager.Job.Methods
use download_manager.Scheduler.State.{
  Env, Scheduler, SchedulerCmd, Worker, enqueue, pause, resume, cancel, cancel_all,
  set_max_concurrent, new, schedule, cancel_job,
}
use download_manager.Scheduler.Transition.{
  on_dispatch, on_retry_elapsed, on_pause, on_resume, on_cancel, on_worker, settle, transition_job,
}
use download_manager.Scheduler.Loop.{
  Next, command, worker, retry, try_dispatch, cancel_each, new_job, >>=-eq-some, handle_cmd,
  on_next, round,
}
use download_manager.Scheduler.Reach.{Fresh, FreshCommand, Reach, Reach-induction}
use download_manager.Scheduler.Placed.{Placed, worker_of}
use download_manager.Scheduler.Rounds.{dispatch_loop_induction, AllPlaced, round-Placed, new-Placed}
use download_manager.Scheduler.Drain.{active_at-le-one}

-- A job is weighed by what its worker is given.
module _ (weigh : Request → (progress_tx : ℕ) → ℕ) where
  -- What a job that has a worker has given it; the others have none.
  abbrev pub given_at : Option Job → ℕ
  given_at none = 0
  given_at (some job) = elim job.state [
    | running _ ↦ weigh job.request job.progress_tx
    | pausing _ ↦ weigh job.request job.progress_tx
    | cancelling ↦ weigh job.request job.progress_tx
    | _ ↦ 0
  ]

  abbrev pub has_of : ℕ → Worker → ℕ
  has_of i w = if w.id == i then weigh w.request w.progress_tx else 0

  pub record Assigned {W : Type 0} (i : ℕ) (s : Scheduler W) : Type 0 where
    pub has : tally (has_of i) s.workers ≡ given_at (lookup i s.jobs)

  module _ {W : Type 0} (i : ℕ) (s : Scheduler W) (a : Assigned i s) where
    pub on_dispatch-Assigned : (id : ℕ) → Assigned i (on_dispatch id s)
    unfolding on_dispatch
    on_dispatch-Assigned id = grind (arith, lookup-insert, tally-append)

    pub on_retry_elapsed-Assigned : (id attempt : ℕ) → Assigned i (on_retry_elapsed id attempt s)
    unfolding on_retry_elapsed
    on_retry_elapsed-Assigned id attempt = grind (arith, lookup-insert)

    pub on_pause-Assigned : (env : Env W) (id ack : ℕ) → Assigned i (on_pause env id ack s)
    unfolding on_pause Methods.pause
    on_pause-Assigned env id ack = grind (arith, lookup-insert)

    pub on_resume-Assigned : (env : Env W) (id ack : ℕ) → Assigned i (on_resume env id ack s)
    unfolding on_resume
    on_resume-Assigned env id ack = grind (arith, lookup-insert)

    pub on_cancel-Assigned : (env : Env W) (id : ℕ) → Assigned i (on_cancel env id s)
    unfolding on_cancel cancel_job
    on_cancel-Assigned env id = grind (arith, lookup-insert, lookup-erase)

    pub schedule-Assigned :
        (job : Job) → lookup job.id s.jobs ≡ none → job.state ≡ queued → Assigned i (schedule job s)
    unfolding schedule
    schedule-Assigned job fresh e = grind (arith, lookup-insert)

  -- A worker's result comes when its future has left the set.
  module _ {W : Type 0} (env : Env W) (i id : ℕ) where
    settle-Assigned :
        (state : JobState) (result : Result WorkerResult) (job : Job) (s : Scheduler W)
        {t : Scheduler W}
        → Assigned i s
        → lookup id s.jobs ≡ none
        → settle env state result id job s ≡ some t
        → Assigned i t
    unfolding cancel_job Methods.pause Methods.retry
    settle-Assigned queued result job s p gone e = grind (arith, lookup-insert)
    settle-Assigned _ result job s p gone e = grind (arith, lookup-insert)

    pub on_worker-Assigned :
        (result : Result WorkerResult) (s : Scheduler W) {t : Scheduler W}
        → tally (has_of i) s.workers ≡ (if id == i then 0 else given_at (lookup i s.jobs))
        → on_worker env id result s ≡ some t
        → Assigned i t
    unfolding on_worker
    on_worker-Assigned result s h e = elim (Option-cases (lookup id s.jobs)) [
      | inl missing ↦ grind arith
      | inr (job, found) ↦
          settle-Assigned job.state result job (record s { jobs = erase id s.jobs })
            (grind (arith, lookup-erase)) (grind (arith, lookup-erase)) (rw (found, on_worker) at e)
    ]
