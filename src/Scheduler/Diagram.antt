-- ===== src/Scheduler/Diagram.antt =====
-- scheduler.rs: the life of a job, and that an event touches no other job.
use download_manager.Base.{
  ℕ, ◌≡◌, Bool, true, false, Option, none, some, some_inj, arith, ◌==◌, lookup, erase,
  lookup-insert, lookup-erase, if◌then◌else◌, Option-cases, inl, inr, subst, refl,
}
use download_manager.Error.{Result}
use download_manager.Job.{Job, JobEvent, JobState, WorkerResult}
use download_manager.Job
use download_manager.Job.Methods
use download_manager.Scheduler.State.{Env, Scheduler, cancel_job}
use download_manager.Scheduler.Transition.{
  on_dispatch, on_retry_elapsed, on_pause, on_resume, on_cancel, on_worker, settle, transition_job,
}
use download_manager.Scheduler.Placed.{active_at}

-- The states without what they carry, and the absence from the table.
pub data Stage : Type 0 where
  absent queued running retrying pausing paused cancelling : Stage

abbrev pub stage_of : JobState → Stage
stage_of Job.queued = queued
stage_of (Job.running _) = running
stage_of (Job.retrying _) = retrying
stage_of (Job.pausing _) = pausing
stage_of Job.paused = paused
stage_of Job.cancelling = cancelling

abbrev pub stage : Option Job → Stage
stage none = absent
stage (some job) = stage_of job.state

-- The diagram of a job's life; any stage may stay.
abbrev pub leads : Stage → Stage → Bool
leads queued running = true
leads queued paused = true
leads queued absent = true
leads running pausing = true
leads running cancelling = true
leads running retrying = true
leads running absent = true
leads retrying queued = true
leads retrying paused = true
leads retrying absent = true
leads pausing paused = true
leads pausing cancelling = true
leads pausing absent = true
leads paused queued = true
leads paused absent = true
leads cancelling absent = true
leads absent absent = true
leads queued queued = true
leads running running = true
leads retrying retrying = true
leads pausing pausing = true
leads paused paused = true
leads cancelling cancelling = true
leads _ _ = false

-- A worker's result comes to a job that has a worker.
abbrev pub Due : JobEvent → Option Job → Type 0
Due (JobEvent.worker _) slot = active_at slot ≡ 1
Due _ slot = Unit {0}

-- What an event on `id` does to the table: the job follows the diagram, the others stay.
pub record Follows {W : Type 0} (id i : ℕ) (s t : Scheduler W) : Type 0 where
  pub led : leads (stage (lookup id s.jobs)) (stage (lookup id t.jobs)) ≡ true
  pub framed : lookup i t.jobs ≡ (if id == i then lookup id t.jobs else lookup i s.jobs)

module _ {W : Type 0} (env : Env W) (id i : ℕ) (s : Scheduler W) where
  on_dispatch-Follows : Follows id i s (on_dispatch id s)
  unfolding on_dispatch
  on_dispatch-Follows = grind (arith, lookup-insert)

  on_retry_elapsed-Follows : (attempt : ℕ) → Follows id i s (on_retry_elapsed id attempt s)
  unfolding on_retry_elapsed
  on_retry_elapsed-Follows attempt = grind (arith, lookup-insert)

  on_pause-Follows : (a : ℕ) → Follows id i s (on_pause env id a s)
  unfolding on_pause Methods.pause
  on_pause-Follows a = grind (arith, lookup-insert)

  on_resume-Follows : (a : ℕ) → Follows id i s (on_resume env id a s)
  unfolding on_resume
  on_resume-Follows a = grind (arith, lookup-insert)

  on_cancel-Follows : Follows id i s (on_cancel env id s)
  unfolding on_cancel cancel_job
  on_cancel-Follows = grind (arith, lookup-insert, lookup-erase)

module _ {W : Type 0} (env : Env W) (id i : ℕ) where
  settle-stage :
      (state : JobState) (result : Result WorkerResult) (job : Job) (s : Scheduler W)
      {t : Scheduler W}
      → active_at (some job) ≡ 1
      → job.state ≡ state
      → lookup id s.jobs ≡ none
      → settle env state result id job s ≡ some t
      → (leads (stage_of state) (stage (lookup id t.jobs)) ≡ true)
        × (lookup i t.jobs ≡ (if id == i then lookup id t.jobs else lookup i s.jobs))
  unfolding cancel_job Methods.pause Methods.retry
  settle-stage Job.queued result job s active st gone e = grind arith
  settle-stage _ result job s active st gone e = grind (arith, lookup-insert)

  on_worker-Follows :
      (result : Result WorkerResult) (s : Scheduler W) {t : Scheduler W}
      → active_at (lookup id s.jobs) ≡ 1
      → on_worker env id result s ≡ some t
      → Follows id i s t
  unfolding on_worker
  on_worker-Follows result s active e = elim (Option-cases (lookup id s.jobs)) [
    | inl missing ↦ ground arith
    | inr (job, found) ↦
        let h =
          settle-stage job.state result job (record s { jobs = erase id s.jobs })
            (rw found at active) refl (grind (arith, lookup-erase)) (rw (found, on_worker) at e) in
        record { led = rw found h.0; framed = grind (arith, h.1, lookup-erase) }
  ]

  -- Whatever the event, a job moves along the diagram, or stays where it is, and no other job is
  -- touched; for a worker's result this supposes that the job has a worker.
  pub transition_job-Follows :
      (event : JobEvent) (s : Scheduler W) {t : Scheduler W}
      → Due event (lookup id s.jobs)
      → transition_job env id event s ≡ some t
      → Follows id i s t
  unfolding transition_job
  transition_job-Follows JobEvent.dispatch s due e =
      subst (Follows id i s) (some_inj e) (on_dispatch-Follows env id i s)
  transition_job-Follows (JobEvent.retry_elapsed attempt) s due e =
      subst (Follows id i s) (some_inj e) (on_retry_elapsed-Follows env id i s attempt)
  transition_job-Follows (JobEvent.pause a) s due e =
      subst (Follows id i s) (some_inj e) (on_pause-Follows env id i s a)
  transition_job-Follows (JobEvent.resume a) s due e =
      subst (Follows id i s) (some_inj e) (on_resume-Follows env id i s a)
  transition_job-Follows JobEvent.cancel s due e =
      subst (Follows id i s) (some_inj e) (on_cancel-Follows env id i s)
  transition_job-Follows (JobEvent.worker result) s due e = on_worker-Follows result s due e
