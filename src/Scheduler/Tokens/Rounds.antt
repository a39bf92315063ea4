-- ===== src/Scheduler/Tokens/Rounds.antt =====
-- scheduler.rs: the token that stops a worker, round by round.
use download_manager.Base.{
  ℕ, ◌≡◌, ◌≤◌, refl, Bool, some, some_inj, List, [], ◌∷◌, arith, lookup, keys, length, subst, ap,
  tally, tally-take_at, take_at, lookup-nil, List-cases, inl, inr,
}
use download_manager.Error.{Result}
use download_manager.Job.{Job, WorkerResult}
use download_manager.Scheduler.State.{
  Env, Scheduler, SchedulerCmd, Worker, enqueue, pause, resume, cancel, cancel_all,
  set_max_concurrent, new,
}
use download_manager.Scheduler.Transition.{on_cancel, transition_job}
use download_manager.Scheduler.Loop.{
  Next, command, worker, retry, try_dispatch, cancel_each, new_job, >>=-eq-some, handle_cmd,
  on_next, round,
}
use download_manager.Scheduler.Reach.{Fresh, FreshCommand, Reach, Reach-induction}
use download_manager.Scheduler.Placed.{Placed, worker_of}
use download_manager.Scheduler.Rounds.{dispatch_loop_induction, AllPlaced, round-Placed, new-Placed}
use download_manager.Scheduler.Drain.{active_at-le-one}
use download_manager.Scheduler.Tokens.{
  Held, may_hold, holder, on_dispatch-Held, on_retry_elapsed-Held, on_pause-Held, on_resume-Held,
  on_cancel-Held, schedule-Held, on_worker-Held,
}

module _ (token : ℕ) where
  -- No worker, nothing given.
  holder-none :
      (i : ℕ) (workers : List Worker)
      → tally (worker_of i) workers ≡ 0
      → tally (holder token i) workers ≡ 0
  holder-none i [] h = omega arith
  holder-none i (w ∷ ws) h = ground (arith, holder-none i ws)

  module _ {W : Type 0} where
    abbrev AllHeld : Scheduler W → Type 0
    AllHeld s = (i : ℕ) → Held token i s

    try_dispatch-Held :
        (i : ℕ) (is_cancelled : ℕ → Bool) (s : Scheduler W)
        → Held token i s
        → Held token i (try_dispatch is_cancelled s)
    unfolding try_dispatch
    try_dispatch-Held i is_cancelled s a =
        dispatch_loop_induction (Held token i) is_cancelled
          (λ _ id rest s _ _ a. record { held = a.held })
          (λ id rest s _ _ a.
            on_dispatch-Held token i (record s { ready = rest }) (record { held = a.held }) id)
          (length s.ready) s a

    module _ (env : Env W) where
      cancel_each-Held :
          (i : ℕ) (ids : List ℕ) (s : Scheduler W)
          → Held token i s
          → Held token i (cancel_each env ids s)
      unfolding cancel_each
      cancel_each-Held i [] s a = a
      cancel_each-Held i (id ∷ ids) s a =
          cancel_each-Held i ids (on_cancel env id s) (on_cancel-Held token i s a env id)

      handle_cmd-Held :
          (i : ℕ) (cmd : SchedulerCmd) (s : Scheduler W) {t : Scheduler W}
          → FreshCommand cmd s
          → Held token i s
          → handle_cmd env cmd s ≡ some t
          → Held token i t
      unfolding handle_cmd transition_job
      handle_cmd-Held i (enqueue id request progress_tx result_tx) s fresh a e =
          subst (Held token i) (some_inj e)
            (schedule-Held token i s a (new_job env id request progress_tx result_tx) fresh.0 refl)
      handle_cmd-Held i (pause id ack) s fresh a e =
          subst (Held token i) (some_inj e) (on_pause-Held token i s a env id ack)
      handle_cmd-Held i (resume id ack) s fresh a e =
          subst (Held token i) (some_inj e) (on_resume-Held token i s a env id ack)
      handle_cmd-Held i (cancel id) s fresh a e =
          subst (Held token i) (some_inj e) (on_cancel-Held token i s a env id)
      handle_cmd-Held i cancel_all s fresh a e =
          subst (Held token i) (some_inj e)
            (record { held = (cancel_each-Held i (keys s.jobs) s a).held })
      handle_cmd-Held i (set_max_concurrent n) s fresh a e =
          subst (Held token i) (some_inj e) (record { held = a.held })

      worker_done-Held :
          (i place : ℕ) (result : Result WorkerResult) (s : Scheduler W) {t : Scheduler W}
          → Placed i s
          → Held token i s
          → on_next env (worker place result) s ≡ some t
          → Held token i t
      unfolding on_next transition_job
      worker_done-Held i place result s placed a e = elim (List-cases s.workers) [
        | inl idle ↦ subst (Held token i) (some_inj (rw (idle, on_next) at e)) a
        | inr (first, others, busy) ↦
            let (found, rest) = take_at place first others in
            on_worker-Held token env i found.id result (record s { workers = rest })
              (ground (
                arith,
                a.held,
                placed.works,
                active_at-le-one (lookup i s.jobs),
                ap (tally (holder token i)) busy,
                ap (tally (worker_of i)) busy,
                tally-take_at (holder token i) place first others,
                tally-take_at (worker_of i) place first others,
                holder-none i rest,
              ))
              (rw (busy, on_next) at e)
      ]

      retry_due-Held :
          (i place : ℕ) (s : Scheduler W) {t : Scheduler W}
          → Held token i s
          → on_next env (retry place) s ≡ some t
          → Held token i t
      unfolding on_next transition_job
      retry_due-Held i place s a e = elim (List-cases s.delayed) [
        | inl idle ↦ subst (Held token i) (some_inj (rw (idle, on_next) at e)) a
        | inr (first, others, waits) ↦
            let (found, rest) = take_at place first others in
            subst (Held token i) (some_inj (rw (waits, on_next) at e)) (
              on_retry_elapsed-Held token i (record s { delayed = rest }) (record { held = a.held })
                found.0 found.1)
      ]

      on_next-Held :
          (next : Next) (s : Scheduler W) {t : Scheduler W}
          → AllPlaced s
          → AllHeld s
          → Fresh next s
          → on_next env next s ≡ some t
          → AllHeld t
      unfolding on_next
      on_next-Held (command cmd) s placed all fresh e i = handle_cmd-Held i cmd s fresh (all i) e
      on_next-Held (worker place result) s placed all fresh e i =
          worker_done-Held i place result s (placed i) (all i) e
      on_next-Held (retry place) s placed all fresh e i = retry_due-Held i place s (all i) e
      on_next-Held _ s placed all fresh e i = subst (Held token i) (some_inj e) (all i)

      round-Held :
          (next : Next) (is_cancelled : ℕ → Bool) (s t : Scheduler W)
          → AllPlaced s × AllHeld s
          → Fresh next s
          → round env next is_cancelled s ≡ some t
          → AllPlaced t × AllHeld t
      unfolding round
      round-Held next is_cancelled s t (placed, all) fresh e =
          let (s', stepped, dispatched) = >>=-eq-some (on_next env next s) _ e in
          (
            round-Placed env next is_cancelled s t placed fresh e,
            λ i. subst (Held token i) (some_inj dispatched) (
                try_dispatch-Held i is_cancelled s'
                  (on_next-Held next s placed all fresh stepped i)),
          )

      new-Held : (max_concurrent : ℕ) (disk : W) → AllHeld (new max_concurrent disk)
      unfolding new
      new-Held max_concurrent disk i = ground (arith, lookup-nil {V = Job} i)

      -- In every state that rounds with fresh ids lead to from the start, the worker of a running job has
      -- the token that the job keeps, and the worker of a job that is pausing or cancelling has a token
      -- that has been cancelled: for each token, no more workers of an id hold it than its job lets.
      pub Reach-Held :
          (max_concurrent : ℕ) (disk : W) {s : Scheduler W}
          → Reach env (new max_concurrent disk) s
          → (i : ℕ) → tally (holder token i) s.workers ≤ may_hold token s.log (lookup i s.jobs)
      Reach-Held max_concurrent disk r i =
          let (_, all) =
            Reach-induction env (λ s. AllPlaced s × AllHeld s) round-Held
              (new-Placed env max_concurrent disk, new-Held max_concurrent disk) r in
          (all i).held
