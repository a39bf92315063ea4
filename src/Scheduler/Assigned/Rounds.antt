-- ===== src/Scheduler/Assigned/Rounds.antt =====
-- scheduler.rs: the workers of an id and what its job has given them, round by round.
use download_manager.Base.{
  ℕ, ◌≡◌, refl, Bool, some, some_inj, List, [], ◌∷◌, arith, lookup, keys, length, subst, ap, tally,
  tally-take_at, take_at, lookup-nil, List-cases, inl, inr,
}
use download_manager.Error.{Result}
use download_manager.Request.{Request}
use download_manager.Job.{Job, WorkerResult}
use download_manager.Scheduler.State.{
  Env, Scheduler, SchedulerCmd, Worker, enqueue, pause, resume, cancel, cancel_all,
  set_max_concurrent, new,
}
use download_manager.Scheduler.Transition.{on_cancel, transition_job}
use download_manager.Scheduler.Loop.{
  Next, command, worker, retry, try_dispatch, cancel_each, new_job, >>=-eq-some, handle_cmd,
  on_next, round,
}
use download_manager.Scheduler.Reach.{Fresh, FreshCommand, Reach, Reach-induction}
use download_manager.Scheduler.Placed.{Placed, worker_of}
use download_manager.Scheduler.Rounds.{dispatch_loop_induction, AllPlaced, round-Placed, new-Placed}
use download_manager.Scheduler.Drain.{active_at-le-one}
use download_manager.Scheduler.Assigned.{
  Assigned, given_at, has_of, on_dispatch-Assigned, on_retry_elapsed-Assigned, on_pause-Assigned,
  on_resume-Assigned, on_cancel-Assigned, schedule-Assigned, on_worker-Assigned,
}

module _ (weigh : Request → (progress_tx : ℕ) → ℕ) where
  -- No worker, nothing given.
  has-none :
      (i : ℕ) (workers : List Worker)
      → tally (worker_of i) workers ≡ 0
      → tally (has_of weigh i) workers ≡ 0
  has-none i [] h = omega arith
  has-none i (w ∷ ws) h = ground (arith, has-none i ws)

  module _ {W : Type 0} where
    abbrev AllAssigned : Scheduler W → Type 0
    AllAssigned s = (i : ℕ) → Assigned weigh i s

    try_dispatch-Assigned :
        (i : ℕ) (is_cancelled : ℕ → Bool) (s : Scheduler W)
        → Assigned weigh i s
        → Assigned weigh i (try_dispatch is_cancelled s)
    unfolding try_dispatch
    try_dispatch-Assigned i is_cancelled s a =
        dispatch_loop_induction (Assigned weigh i) is_cancelled
          (λ _ id rest s _ _ a. record { has = a.has })
          (λ id rest s _ _ a.
            on_dispatch-Assigned weigh i (record s { ready = rest }) (record { has = a.has }) id)
          (length s.ready) s a

    module _ (env : Env W) where
      cancel_each-Assigned :
          (i : ℕ) (ids : List ℕ) (s : Scheduler W)
          → Assigned weigh i s
          → Assigned weigh i (cancel_each env ids s)
      unfolding cancel_each
      cancel_each-Assigned i [] s a = a
      cancel_each-Assigned i (id ∷ ids) s a =
          cancel_each-Assigned i ids (on_cancel env id s) (on_cancel-Assigned weigh i s a env id)

      handle_cmd-Assigned :
          (i : ℕ) (cmd : SchedulerCmd) (s : Scheduler W) {t : Scheduler W}
          → FreshCommand cmd s
          → Assigned weigh i s
          → handle_cmd env cmd s ≡ some t
          → Assigned weigh i t
      unfolding handle_cmd transition_job
      handle_cmd-Assigned i (enqueue id request progress_tx result_tx) s fresh a e =
          subst (Assigned weigh i) (some_inj e) (
            schedule-Assigned weigh i s a (new_job env id request progress_tx result_tx) fresh.0
              refl)
      handle_cmd-Assigned i (pause id ack) s fresh a e =
          subst (Assigned weigh i) (some_inj e) (on_pause-Assigned weigh i s a env id ack)
      handle_cmd-Assigned i (resume id ack) s fresh a e =
          subst (Assigned weigh i) (some_inj e) (on_resume-Assigned weigh i s a env id ack)
      handle_cmd-Assigned i (cancel id) s fresh a e =
          subst (Assigned weigh i) (some_inj e) (on_cancel-Assigned weigh i s a env id)
      handle_cmd-Assigned i cancel_all s fresh a e =
          subst (Assigned weigh i) (some_inj e)
            (record { has = (cancel_each-Assigned i (keys s.jobs) s a).has })
      handle_cmd-Assigned i (set_max_concurrent n) s fresh a e =
          subst (Assigned weigh i) (some_inj e) (record { has = a.has })

      worker_done-Assigned :
          (i place : ℕ) (result : Result WorkerResult) (s : Scheduler W) {t : Scheduler W}
          → Placed i s
          → Assigned weigh i s
          → on_next env (worker place result) s ≡ some t
          → Assigned weigh i t
      unfolding on_next transition_job
      worker_done-Assigned i place result s placed a e = elim (List-cases s.workers) [
        | inl idle ↦ subst (Assigned weigh i) (some_inj (rw (idle, on_next) at e)) a
        | inr (first, others, busy) ↦
            let (found, rest) = take_at place first others in
            on_worker-Assigned weigh env i found.id result (record s { workers = rest })
              (ground (
                arith,
                a.has,
                placed.works,
                active_at-le-one (lookup i s.jobs),
                ap (tally (has_of weigh i)) busy,
                ap (tally (worker_of i)) busy,
                tally-take_at (has_of weigh i) place first others,
                tally-take_at (worker_of i) place first others,
                has-none i rest,
              ))
              (rw (busy, on_next) at e)
      ]

      retry_due-Assigned :
          (i place : ℕ) (s : Scheduler W) {t : Scheduler W}
          → Assigned weigh i s
          → on_next env (retry place) s ≡ some t
          → Assigned weigh i t
      unfolding on_next transition_job
      retry_due-Assigned i place s a e = elim (List-cases s.delayed) [
        | inl idle ↦ subst (Assigned weigh i) (some_inj (rw (idle, on_next) at e)) a
        | inr (first, others, waits) ↦
            let (found, rest) = take_at place first others in
            subst (Assigned weigh i) (some_inj (rw (waits, on_next) at e)) (
              on_retry_elapsed-Assigned weigh i (record s { delayed = rest })
                (record { has = a.has }) found.0 found.1)
      ]

      on_next-Assigned :
          (next : Next) (s : Scheduler W) {t : Scheduler W}
          → AllPlaced s
          → AllAssigned s
          → Fresh next s
          → on_next env next s ≡ some t
          → AllAssigned t
      unfolding on_next
      on_next-Assigned (command cmd) s placed all fresh e i =
          handle_cmd-Assigned i cmd s fresh (all i) e
      on_next-Assigned (worker place result) s placed all fresh e i =
          worker_done-Assigned i place result s (placed i) (all i) e
      on_next-Assigned (retry place) s placed all fresh e i = retry_due-Assigned i place s (all i) e
      on_next-Assigned _ s placed all fresh e i = subst (Assigned weigh i) (some_inj e) (all i)

      round-Assigned :
          (next : Next) (is_cancelled : ℕ → Bool) (s t : Scheduler W)
          → AllPlaced s × AllAssigned s
          → Fresh next s
          → round env next is_cancelled s ≡ some t
          → AllPlaced t × AllAssigned t
      unfolding round
      round-Assigned next is_cancelled s t (placed, all) fresh e =
          let (s', stepped, dispatched) = >>=-eq-some (on_next env next s) _ e in
          (
            round-Placed env next is_cancelled s t placed fresh e,
            λ i. subst (Assigned weigh i) (some_inj dispatched) (
                try_dispatch-Assigned i is_cancelled s'
                  (on_next-Assigned next s placed all fresh stepped i)),
          )

      new-Assigned : (max_concurrent : ℕ) (disk : W) → AllAssigned (new max_concurrent disk)
      unfolding new
      new-Assigned max_concurrent disk i = ground (arith, lookup-nil {V = Job} i)

      -- In every state that rounds with fresh ids lead to from the start, and however requests are
      -- weighed with their channels of progress, the workers of an id weigh together what its job
      -- weighs, if that is running, pausing or cancelling, and nothing otherwise.
      pub Reach-Assigned :
          (max_concurrent : ℕ) (disk : W) {s : Scheduler W}
          → Reach env (new max_concurrent disk) s
          → (i : ℕ) → tally (has_of weigh i) s.workers ≡ given_at weigh (lookup i s.jobs)
      Reach-Assigned max_concurrent disk r i =
          let (_, all) =
            Reach-induction env (λ s. AllPlaced s × AllAssigned s) round-Assigned
              (new-Placed env max_concurrent disk, new-Assigned max_concurrent disk) r in
          (all i).has
