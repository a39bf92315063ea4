-- ===== src/Scheduler/Shutdown.antt =====
-- scheduler.rs: `CancelAll`, and what `run` does when it leaves its loop.
use download_manager.Base.{
  ℕ, ◌<◌, ◌≡◌, Option, none, some, List, [], ◌∷◌, arith, ◌==◌, keys, count, lookup, erase,
  lookup-insert, lookup-erase, missing-keys, if◌then◌else◌, Option-cases, Bool-cases, ==→eq, inl,
  inr, subst, refl, ap, sym, ◌∙◌,
}
use download_manager.Error.{Result, ok, err}
use download_manager.Job.{Job, JobState, cancelling, finished, stopped, WorkerResult}
use download_manager.Scheduler.State.{Env, Scheduler, cancel_job}
use download_manager.Scheduler.Transition.{on_cancel, on_worker, settle, finish}
use download_manager.Scheduler.Loop.{cancel_each}

-- A job that is still to end otherwise than by cancellation.
abbrev pub live_at : Option Job → ℕ
live_at none = 0
live_at (some job) = elim job.state [ cancelling ↦ 0 | _ ↦ 1 ]

module _ {W : Type 0} (env : Env W) where
  on_cancel_ends : (id : ℕ) (s : Scheduler W) → live_at (lookup id (on_cancel env id s).jobs) ≡ 0
  unfolding on_cancel cancel_job
  on_cancel_ends id s = grind (arith, lookup-insert, lookup-erase)

  on_cancel_still :
      (i id : ℕ) (s : Scheduler W)
      → live_at (lookup i s.jobs) ≡ 0
      → live_at (lookup i (on_cancel env id s).jobs) ≡ 0
  unfolding on_cancel cancel_job
  on_cancel_still i id s h = grind (arith, lookup-insert, lookup-erase)

  cancel_each_still :
      (i : ℕ) (ids : List ℕ) (s : Scheduler W)
      → live_at (lookup i s.jobs) ≡ 0
      → live_at (lookup i (cancel_each env ids s).jobs) ≡ 0
  unfolding cancel_each
  cancel_each_still i [] s h = h
  cancel_each_still i (id ∷ ids) s h =
      cancel_each_still i ids (on_cancel env id s) (on_cancel_still i id s h)

  cancel_each_ends :
      (i : ℕ) (ids : List ℕ) (s : Scheduler W)
      → 0 < count i ids
      → live_at (lookup i (cancel_each env ids s).jobs) ≡ 0
  unfolding cancel_each
  cancel_each_ends i [] s h = absurd (omega arith)
  cancel_each_ends i (id ∷ ids) s h = elim (Bool-cases (id == i)) [
    | inl same ↦ cancel_each_still i ids (on_cancel env id s) (
        subst (λ j. live_at (lookup j (on_cancel env id s).jobs) ≡ 0) (==→eq id i same)
          (on_cancel_ends id s))
    | inr other ↦ cancel_each_ends i ids (on_cancel env id s) (ground arith)
  ]

  -- Cancelling every key of the table leaves only jobs that are being cancelled.
  pub cancel_each_all :
      (i : ℕ) (s : Scheduler W) → live_at (lookup i (cancel_each env (keys s.jobs) s).jobs) ≡ 0
  cancel_each_all i s = elim (Bool-cases (count i (keys s.jobs) == 0)) [
    | inl absent ↦
        cancel_each_still i (keys s.jobs) s
          (ground (arith, missing-keys i s.jobs (==→eq _ _ absent)))
    | inr present ↦ cancel_each_ends i (keys s.jobs) s (ground arith)
  ]

  cancelling_of : (job : Job) → live_at (some job) ≡ 0 → job.state ≡ cancelling
  cancelling_of job h = ground arith

  -- The jobs of `t` are those of `s` but one, and the workers are the same.
  abbrev pub Ended : ℕ → Scheduler W → Scheduler W → Type 0
  Ended id s t =
      (t.workers ≡ s.workers)
      × (t.ready ≡ s.ready)
      × (t.delayed ≡ s.delayed)
      × ((i : ℕ) → lookup i t.jobs ≡ (if id == i then none else lookup i s.jobs))

  abbrev Settles : ℕ → Result WorkerResult → Job → Scheduler W → JobState → Type 0
  Settles id result job s state =
      (t : Scheduler W) × (settle env state result id job s ≡ some t)
      × (t.workers ≡ s.workers)
      × (t.ready ≡ s.ready)
      × (t.delayed ≡ s.delayed)
      × (t.jobs ≡ s.jobs)

  settle_cancelling :
      (id : ℕ) (result : Result WorkerResult) (job : Job) (s : Scheduler W)
      → Settles id result job s cancelling
  unfolding cancel_job
  settle_cancelling id (ok (finished r)) job s =
      (finish env job (ok r) s, refl, refl, refl, refl, refl)
  settle_cancelling id (ok stopped) job s = (cancel_job env job s, refl, refl, refl, refl, refl)
  settle_cancelling id (err error) job s = (cancel_job env job s, refl, refl, refl, refl, refl)

  -- The result of a job that is being cancelled ends it, whatever the result.
  pub on_worker_cancelling :
      (id : ℕ) (result : Result WorkerResult) (s : Scheduler W)
      → live_at (lookup id s.jobs) ≡ 0
      → (t : Scheduler W) × (on_worker env id result s ≡ some t) × Ended id s t
  unfolding on_worker
  on_worker_cancelling id result s h = elim (Option-cases (lookup id s.jobs)) [
    | inl missing ↦ (s, rw (missing, on_worker), (refl, refl, refl, λ i. ground arith))
    | inr (job, found) ↦
        let taken : Scheduler W = record s { jobs = erase id s.jobs } in
        let (t, settled, workers, ready, delayed, jobs) =
          subst (Settles id result job taken) (sym (cancelling_of job (rw found at h)))
            (settle_cancelling id result job taken) in
        (
          t,
          rw (found, on_worker) settled,
          (workers, ready, delayed, λ i. ap (lookup i) jobs ∙ lookup-erase i id s.jobs),
        )
  ]
