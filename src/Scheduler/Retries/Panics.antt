-- ===== src/Scheduler/Retries/Panics.antt =====
-- scheduler.rs: when the scheduler panics.
use download_manager.Base.{
  ℕ, ◌≤◌, ◌<◌, ◌≡◌, ◌≢◌, Bool, true, none, some, arith, take_at, lookup, erase, List-cases,
  Option-cases, inl, inr, ap,
}
use download_manager.Error.{Error, Result, err, is_retryable}
use download_manager.Job.{Job, WorkerResult, JobState, queued, running}
use download_manager.Scheduler.State.{Env, Scheduler, SchedulerCmd, cancel_all, new}
use download_manager.Scheduler.Transition.{on_worker, transition_job, settle}
use download_manager.Scheduler.Loop.{
  Next, command, worker, retry, try_dispatch, ◌>>=◌, handle_cmd, on_next, round,
}
use download_manager.Scheduler.Reach.{Reach}
use download_manager.Scheduler.Backoff.Delays.{next_delay_exact}
use download_manager.Scheduler.Retries.{Bounded}
use download_manager.Scheduler.Retries.Rounds.{AllBounded, AllWithin, Reach-Bounded}

module _ {W : Type 0} (env : Env W) where
  settle-ne-none :
      (state : JobState) (result : Result WorkerResult) (id : ℕ) (job : Job) (s : Scheduler W)
      → job.request.config.retries ≤ 64
      → settle env state result id job s ≢ none
  settle-ne-none queued result id job s h e = ground (arith, next_delay_exact job.attempt)
  settle-ne-none _ result id job s h e = ground (arith, next_delay_exact job.attempt)

  on_worker-ne-none :
      (id : ℕ) (result : Result WorkerResult) (s : Scheduler W)
      → Bounded 64 id s
      → on_worker env id result s ≢ none
  unfolding on_worker
  on_worker-ne-none id result s b e = elim (Option-cases (lookup id s.jobs)) [
    | inl missing ↦ ground arith
    | inr (job, found) ↦
        settle-ne-none job.state result id job (record s { jobs = erase id s.jobs })
          (rw found at b.limited) (rw (found, on_worker) at e)
  ]

  handle_cmd-ne-none : (cmd : SchedulerCmd) (s : Scheduler W) → handle_cmd env cmd s ≢ none
  unfolding handle_cmd transition_job
  handle_cmd-ne-none cancel_all s e = cc
  handle_cmd-ne-none _ s e = cc

  on_next-ne-none : (next : Next) (s : Scheduler W) → AllBounded 64 s → on_next env next s ≢ none
  unfolding on_next transition_job
  on_next-ne-none (command cmd) s all e = handle_cmd-ne-none cmd s e
  on_next-ne-none (worker place result) s all e = elim (List-cases s.workers) [
    | inl idle ↦ ground arith
    | inr (first, others, busy) ↦
        let (found, rest) = take_at place first others in
        on_worker-ne-none found.id result (record s { workers = rest })
          (record { tried = (all found.id).tried; limited = (all found.id).limited })
          (rw (busy, on_next) at e)
  ]
  on_next-ne-none (retry place) s all e = ground arith
  on_next-ne-none _ s all e = cc

  -- A scheduler whose requests have at most 64 retries never panics: from every state that rounds with
  -- fresh ids lead to, every further round gives a state.
  pub round_returns :
      (max_concurrent : ℕ) (disk : W) {s : Scheduler W} (r : Reach env (new max_concurrent disk) s)
      → AllWithin 64 r
      → (next : Next) (is_cancelled : ℕ → Bool)
      → (t : Scheduler W) × (round env next is_cancelled s ≡ some t)
  unfolding round
  round_returns max_concurrent disk {s} r w next is_cancelled =
      elim (Option-cases (on_next env next s)) [
        | inl gone ↦ absurd (
            on_next-ne-none next s (Reach-Bounded env 64 (omega arith) max_concurrent disk r w)
              gone)
        | inr (s', stepped) ↦ (
          try_dispatch is_cancelled s',
          ap (λ m. m >>= λ u. some (try_dispatch is_cancelled u)) stepped,
        )
      ]

  -- The code bug: with more than 64 retries the scheduler panics as soon as the 65th attempt of a
  -- running download fails in a way that is to be retried.
  pub on_worker_panics :
      (id stop : ℕ) (error : Error) (job : Job) (s : Scheduler W)
      → lookup id s.jobs ≡ some job
      → job.state ≡ running stop
      → is_retryable env.http error ≡ true
      → 64 ≤ job.attempt
      → job.attempt < job.request.config.retries
      → job.attempt < 2147483648
      → on_worker env id (err error) s ≡ none
  unfolding on_worker
  on_worker_panics id stop error job s found st again h k n =
      ground (arith, next_delay_exact job.attempt)
