-- ===== src/Scheduler/Placed.antt =====
-- scheduler.rs: where the table says a job is, and where its id is found.
use download_manager.Base.{
  ℕ, ◌+◌, ◌≤◌, ◌≡◌, Option, none, some, arith, bit, ◌==◌, lookup, erase, count, tally, tally-append,
  count-without, lookup-insert, lookup-erase, Option-cases, inl, inr,
}
use download_manager.Error.{Result}
use download_manager.Job.{Job, JobState, queued, running, pausing, cancelling, WorkerResult}
use download_manager.Job.Methods
use download_manager.Scheduler.State.{Env, Scheduler, Worker, schedule, cancel_job}
use download_manager.Scheduler.Transition.{
  on_dispatch, on_retry_elapsed, on_pause, on_resume, on_cancel, on_worker, settle,
}

-- A queued job waits in `ready`; the others do not.
abbrev pub queued_at : Option Job → ℕ
queued_at none = 0
queued_at (some job) = elim job.state [ queued ↦ 1 | _ ↦ 0 ]

-- A running, pausing or cancelling job has a worker; the others have none.
abbrev pub active_at : Option Job → ℕ
active_at none = 0
active_at (some job) = elim job.state [ running _ ↦ 1 | pausing _ ↦ 1 | cancelling ↦ 1 | _ ↦ 0 ]

abbrev pub worker_of : ℕ → Worker → ℕ
worker_of i w = bit (w.id == i)

pub record Placed {W : Type 0} (i : ℕ) (s : Scheduler W) : Type 0 where
  pub waits : count i s.ready ≤ queued_at (lookup i s.jobs)
  pub works : tally (worker_of i) s.workers ≡ active_at (lookup i s.jobs)

-- The other half of the first clause: no queued job is forgotten.
pub record Kept {W : Type 0} (i : ℕ) (s : Scheduler W) : Type 0 where
  pub remembered : queued_at (lookup i s.jobs) ≤ count i s.ready

module _ {W : Type 0} (i : ℕ) (s : Scheduler W) (placed : Placed i s) where
  pub on_dispatch-Placed : (id : ℕ) → count id s.ready ≡ 0 → Placed i (on_dispatch id s)
  unfolding on_dispatch
  on_dispatch-Placed id h = grind (arith, lookup-insert, tally-append)

  pub on_retry_elapsed-Placed : (id attempt : ℕ) → Placed i (on_retry_elapsed id attempt s)
  unfolding on_retry_elapsed
  on_retry_elapsed-Placed id attempt = grind (arith, lookup-insert, tally-append)

  pub on_pause-Placed : (env : Env W) (id ack : ℕ) → Placed i (on_pause env id ack s)
  unfolding on_pause Methods.pause
  on_pause-Placed env id ack = grind (arith, lookup-insert, count-without)

  pub on_resume-Placed : (env : Env W) (id ack : ℕ) → Placed i (on_resume env id ack s)
  unfolding on_resume
  on_resume-Placed env id ack = grind (arith, lookup-insert, tally-append)

  pub on_cancel-Placed : (env : Env W) (id : ℕ) → Placed i (on_cancel env id s)
  unfolding on_cancel cancel_job
  on_cancel-Placed env id = grind (arith, lookup-insert, lookup-erase, count-without)

  pub schedule-Placed :
      (job : Job) → lookup job.id s.jobs ≡ none → job.state ≡ queued → Placed i (schedule job s)
  unfolding schedule
  schedule-Placed job new e = grind (arith, lookup-insert, tally-append)

-- A worker's result comes when its future has left the set.
module _ {W : Type 0} (env : Env W) (i id : ℕ) where
  settle-Placed :
      (state : JobState) (result : Result WorkerResult) (job : Job) (s : Scheduler W)
      {t : Scheduler W}
      → Placed i s
      → lookup id s.jobs ≡ none
      → settle env state result id job s ≡ some t
      → Placed i t
  unfolding cancel_job Methods.pause Methods.retry
  settle-Placed queued result job s p gone e = grind (arith, lookup-insert)
  settle-Placed _ result job s p gone e = grind (arith, lookup-insert)

  pub on_worker-Placed :
      (result : Result WorkerResult) (s : Scheduler W) {t : Scheduler W}
      → count i s.ready ≤ queued_at (lookup i s.jobs)
      → tally (worker_of i) s.workers + bit (id == i) ≡ active_at (lookup i s.jobs)
      → on_worker env id result s ≡ some t
      → Placed i t
  unfolding on_worker
  on_worker-Placed result s h k e = elim (Option-cases (lookup id s.jobs)) [
    | inl missing ↦ grind arith
    | inr (job, found) ↦
        settle-Placed job.state result job (record s { jobs = erase id s.jobs })
          (grind (arith, lookup-erase)) (grind (arith, lookup-erase)) (rw (found, on_worker) at e)
  ]

module _ {W : Type 0} (i : ℕ) (s : Scheduler W) (kept : Kept i s) where
  pub on_dispatch-Kept : (id : ℕ) → Kept i (on_dispatch id s)
  unfolding on_dispatch
  on_dispatch-Kept id = grind (arith, lookup-insert, tally-append)

  pub on_retry_elapsed-Kept : (id attempt : ℕ) → Kept i (on_retry_elapsed id attempt s)
  unfolding on_retry_elapsed
  on_retry_elapsed-Kept id attempt = grind (arith, lookup-insert, tally-append)

  pub on_pause-Kept : (env : Env W) (id ack : ℕ) → Kept i (on_pause env id ack s)
  unfolding on_pause Methods.pause
  on_pause-Kept env id ack = grind (arith, lookup-insert, count-without)

  pub on_resume-Kept : (env : Env W) (id ack : ℕ) → Kept i (on_resume env id ack s)
  unfolding on_resume
  on_resume-Kept env id ack = grind (arith, lookup-insert, tally-append)

  pub on_cancel-Kept : (env : Env W) (id : ℕ) → Kept i (on_cancel env id s)
  unfolding on_cancel cancel_job
  on_cancel-Kept env id = grind (arith, lookup-insert, lookup-erase, count-without)

  pub schedule-Kept : (job : Job) → Kept i (schedule job s)
  unfolding schedule
  schedule-Kept job = grind (arith, lookup-insert, tally-append)

module _ {W : Type 0} (env : Env W) (i id : ℕ) where
  settle-Kept :
      (state : JobState) (result : Result WorkerResult) (job : Job) (s : Scheduler W)
      {t : Scheduler W}
      → Kept i s
      → settle env state result id job s ≡ some t
      → Kept i t
  unfolding cancel_job Methods.pause Methods.retry
  settle-Kept queued result job s k e = grind (arith, lookup-insert)
  settle-Kept _ result job s k e = grind (arith, lookup-insert)

  pub on_worker-Kept :
      (result : Result WorkerResult) (s : Scheduler W) {t : Scheduler W}
      → Kept i s
      → on_worker env id result s ≡ some t
      → Kept i t
  unfolding on_worker
  on_worker-Kept result s k e = elim (Option-cases (lookup id s.jobs)) [
    | inl missing ↦ grind arith
    | inr (job, found) ↦
        settle-Kept job.state result job (record s { jobs = erase id s.jobs })
          (grind (arith, lookup-erase)) (rw (found, on_worker) at e)
  ]
