-- ===== src/Scheduler/Delivered/Rounds.antt =====
-- scheduler.rs: which result goes to which channel, round by round.
use download_manager.Base.{
  ℕ, ◌≡◌, sym, Bool, true, not, bit, Option, some, some_inj, List, [], ◌∷◌, arith, lookup, keys,
  length, subst, ap, tally, tally-take_at, take_at, lookup-nil, List-cases, inl, inr,
}
use download_manager.Error.{Result, ok}
use download_manager.Request.{Request}
use download_manager.Job.{Job, WorkerResult}
use download_manager.Scheduler.State.{
  Env, Scheduler, SchedulerCmd, Worker, enqueue, pause, resume, cancel, cancel_all,
  set_max_concurrent, new,
}
use download_manager.Scheduler.Transition.{on_cancel, transition_job}
use download_manager.Scheduler.Loop.{
  Next, command, worker, retry, try_dispatch, cancel_each, new_job, >>=-eq-some, handle_cmd,
  on_next, round,
}
use download_manager.Scheduler.Reach.{Reach, here, step}
use download_manager.Scheduler.Rounds.{dispatch_loop_induction}
use download_manager.Scheduler.Assigned.{given_at, has_of}
use download_manager.Scheduler.Assigned.Rounds.{Reach-Assigned}
use download_manager.Storage.Paths.{FilePath}
use download_manager.Job.{finished}
use download_manager.Scheduler.Delivered.{
  Delivered, rightly, on_dispatch-Delivered, on_retry_elapsed-Delivered, on_pause-Delivered,
  on_resume-Delivered, on_cancel-Delivered, schedule-Delivered, on_worker-Delivered, keeps,
}

module _ (fits : ℕ → FilePath → Bool) where
  abbrev misfit : ℕ → Request → ℕ → ℕ
  misfit r request progress_tx = bit (not (fits r request.destination))

  module _ {W : Type 0} where
    -- What is asked of a round: an enqueued destination belongs to its channel, and a worker that
    -- finishes gives its request's destination.
    abbrev pub Right : Next → Scheduler W → Type 0
    Right (command (enqueue _ request _ result_tx)) s = fits result_tx request.destination ≡ true
    Right (worker place (ok (finished result))) s = elim s.workers [
      | [] ↦ Unit {0}
      | first ∷ others ↦ result.path ≡ (take_at place first others).0.request.destination
    ]
    Right _ s = Unit {0}

    -- Every round was so.
    abbrev pub AllRight : {env : Env W} {start s : Scheduler W} → Reach env start s → Type 0
    AllRight here = Unit {0}
    AllRight (step {s = s} next is_cancelled r fresh e) = Right next s × AllRight r

    abbrev AllDelivered : Scheduler W → Type 0
    AllDelivered s = (i : ℕ) → Delivered fits i s

    abbrev Given : Scheduler W → Type 0
    Given s =
        (r i : ℕ) → tally (has_of (misfit r) i) s.workers ≡ given_at (misfit r) (lookup i s.jobs)

    try_dispatch-Delivered :
        (i : ℕ) (is_cancelled : ℕ → Bool) (s : Scheduler W)
        → Delivered fits i s
        → Delivered fits i (try_dispatch is_cancelled s)
    unfolding try_dispatch
    try_dispatch-Delivered i is_cancelled s a =
        dispatch_loop_induction (Delivered fits i) is_cancelled
          (λ _ id rest s _ _ a. record { kept = a.kept; right = a.right })
          (λ id rest s _ _ a.
            on_dispatch-Delivered fits i (record s { ready = rest })
              (record { kept = a.kept; right = a.right }) id)
          (length s.ready) s a

    module _ (env : Env W) where
      cancel_each-Delivered :
          (i : ℕ) (ids : List ℕ) (s : Scheduler W)
          → Delivered fits i s
          → Delivered fits i (cancel_each env ids s)
      unfolding cancel_each
      cancel_each-Delivered i [] s a = a
      cancel_each-Delivered i (id ∷ ids) s a =
          cancel_each-Delivered i ids (on_cancel env id s) (on_cancel-Delivered fits i s a env id)

      handle_cmd-Delivered :
          (i : ℕ) (cmd : SchedulerCmd) (s : Scheduler W) {t : Scheduler W}
          → Right (command cmd) s
          → Delivered fits i s
          → handle_cmd env cmd s ≡ some t
          → Delivered fits i t
      unfolding handle_cmd transition_job
      handle_cmd-Delivered i (enqueue id request progress_tx result_tx) s right a e =
          subst (Delivered fits i) (some_inj e)
            (schedule-Delivered fits i s a (new_job env id request progress_tx result_tx) right)
      handle_cmd-Delivered i (pause id ack) s right a e =
          subst (Delivered fits i) (some_inj e) (on_pause-Delivered fits i s a env id ack)
      handle_cmd-Delivered i (resume id ack) s right a e =
          subst (Delivered fits i) (some_inj e) (on_resume-Delivered fits i s a env id ack)
      handle_cmd-Delivered i (cancel id) s right a e =
          subst (Delivered fits i) (some_inj e) (on_cancel-Delivered fits i s a env id)
      handle_cmd-Delivered i cancel_all s right a e = subst (Delivered fits i) (some_inj e) (
          let b = cancel_each-Delivered i (keys s.jobs) s a in
          record { kept = b.kept; right = b.right })
      handle_cmd-Delivered i (set_max_concurrent n) s right a e =
          subst (Delivered fits i) (some_inj e) (record { kept = a.kept; right = a.right })

      -- The destination of a worker's request belongs to the channel of its job.
      found-fits :
          (place r : ℕ) (first : Worker) (others : List Worker) (s : Scheduler W) (job : Job)
          → s.workers ≡ first ∷ others
          → Given s
          → lookup (take_at place first others).0.id s.jobs ≡ some job
          → fits r job.request.destination ≡ true
          → fits r (take_at place first others).0.request.destination ≡ true
      found-fits place r first others s job busy given at fit =
          let found = (take_at place first others).0 in
          ground (
            arith,
            given r found.id,
            at,
            fit,
            ap (tally (has_of (misfit r) found.id)) busy,
            tally-take_at (has_of (misfit r) found.id) place first others,
          )

      own-fits :
          (r : ℕ) (jobs : Option Job) (job : Job)
          → keeps fits jobs ≡ true
          → jobs ≡ some job
          → job.result ≡ some r
          → fits r job.request.destination ≡ true
      own-fits r jobs job kept at on = let own = rw at at kept in rw on at own

      worker_done-Delivered :
          (i place : ℕ) (result : Result WorkerResult) (s : Scheduler W) {t : Scheduler W}
          → Given s
          → AllDelivered s
          → Right (worker place result) s
          → on_next env (worker place result) s ≡ some t
          → Delivered fits i t
      unfolding on_next transition_job
      worker_done-Delivered i place result s given all right e = elim (List-cases s.workers) [
        | inl idle ↦ subst (Delivered fits i) (some_inj (rw (idle, on_next) at e)) (all i)
        | inr (first, others, busy) ↦
            let (found, rest) = take_at place first others in
            on_worker-Delivered fits env i found.id result (record s { workers = rest })
              (λ job at x finished_with r on.
                let reached =
                  found-fits place r first others s job busy given at
                    (own-fits r (lookup found.id s.jobs) job (all found.id).kept at on) in
                let same : x.path ≡ found.request.destination = rw (finished_with, busy) at right in
                subst (λ p. fits r p ≡ true) (sym same) reached)
              (record { kept = (all found.id).kept; right = (all found.id).right })
              (record { kept = (all i).kept; right = (all i).right }) (rw (busy, on_next) at e)
      ]

      retry_due-Delivered :
          (i place : ℕ) (s : Scheduler W) {t : Scheduler W}
          → Delivered fits i s
          → on_next env (retry place) s ≡ some t
          → Delivered fits i t
      unfolding on_next transition_job
      retry_due-Delivered i place s a e = elim (List-cases s.delayed) [
        | inl idle ↦ subst (Delivered fits i) (some_inj (rw (idle, on_next) at e)) a
        | inr (first, others, waits) ↦
            let (found, rest) = take_at place first others in
            subst (Delivered fits i) (some_inj (rw (waits, on_next) at e)) (
              on_retry_elapsed-Delivered fits i (record s { delayed = rest })
                (record { kept = a.kept; right = a.right }) found.0 found.1)
      ]

      on_next-Delivered :
          (next : Next) (s : Scheduler W) {t : Scheduler W}
          → Given s
          → AllDelivered s
          → Right next s
          → on_next env next s ≡ some t
          → AllDelivered t
      unfolding on_next
      on_next-Delivered (command cmd) s given all right e i =
          handle_cmd-Delivered i cmd s right (all i) e
      on_next-Delivered (worker place result) s given all right e i =
          worker_done-Delivered i place result s given all right e
      on_next-Delivered (retry place) s given all right e i =
          retry_due-Delivered i place s (all i) e
      on_next-Delivered _ s given all right e i = subst (Delivered fits i) (some_inj e) (all i)

      round-Delivered :
          (next : Next) (is_cancelled : ℕ → Bool) (s : Scheduler W) {t : Scheduler W}
          → Given s
          → AllDelivered s
          → Right next s
          → round env next is_cancelled s ≡ some t
          → AllDelivered t
      unfolding round
      round-Delivered next is_cancelled s given all right e i =
          let (s', stepped, dispatched) = >>=-eq-some (on_next env next s) _ e in
          subst (Delivered fits i) (some_inj dispatched) (
            try_dispatch-Delivered i is_cancelled s'
              (on_next-Delivered next s given all right stepped i))

      new-Delivered : (max_concurrent : ℕ) (disk : W) → AllDelivered (new max_concurrent disk)
      unfolding new
      new-Delivered max_concurrent disk i = ground (arith, lookup-nil {V = Job} i)

      all-Delivered :
          (max_concurrent : ℕ) (disk : W) {s : Scheduler W}
          (r : Reach env (new max_concurrent disk) s)
          → AllRight r
          → AllDelivered s
      all-Delivered max_concurrent disk here right = new-Delivered max_concurrent disk
      all-Delivered max_concurrent disk (step {s = s} next is_cancelled r fresh e) right =
          round-Delivered next is_cancelled s
            (λ channel i. Reach-Assigned (misfit channel) env max_concurrent disk r i)
            (all-Delivered max_concurrent disk r right.1) right.0 e

      -- If every enqueued destination belongs to the channel of results that comes with it, and every
      -- worker that finishes gives the destination of the request that it was given, then in every state
      -- that rounds with fresh ids lead to from the start, each channel has been sent only results whose
      -- path belongs to it.
      pub Reach-rightly :
          (max_concurrent : ℕ) (disk : W) {s : Scheduler W}
          (r : Reach env (new max_concurrent disk) s)
          → AllRight r
          → rightly fits s.log ≡ true
      Reach-rightly max_concurrent disk r right =
          (all-Delivered max_concurrent disk r right 0).right
