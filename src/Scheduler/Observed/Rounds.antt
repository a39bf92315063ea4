-- ===== src/Scheduler/Observed/Rounds.antt =====
-- scheduler.rs: the events of a download over rounds.
use download_manager.Base.{
  ℕ, ◌≡◌, Bool, true, refl, some, some_inj, List, [], ◌∷◌, arith, keys, length, tally, bit, ==_self,
  take_at, tally-take_at, lookup, lookup-nil, subst, ap, List-cases, inl, inr,
}
use download_manager.Error.{Result}
use download_manager.Job.{Job, WorkerResult}
use download_manager.Scheduler.State.{
  Env, Scheduler, Worker, SchedulerCmd, enqueue, pause, resume, cancel, cancel_all,
  set_max_concurrent, new,
}
use download_manager.Scheduler.Transition.{on_cancel, transition_job}
use download_manager.Scheduler.Loop.{
  Next, command, worker, retry, try_dispatch, cancel_each, new_job, >>=-eq-some, handle_cmd,
  on_next, round,
}
use download_manager.Scheduler.Reach.{Fresh, FreshCommand, Reach, Reach-induction}
use download_manager.Scheduler.Placed.{active_at, worker_of}
use download_manager.Scheduler.Rounds.{dispatch_loop_induction, AllPlaced, round-Placed, new-Placed}
use download_manager.Scheduler.Drain.{active_at-le-one}
use download_manager.Scheduler.Diagram.{stage}
use download_manager.Scheduler.Observed.{observed, orderly, Observed}
use download_manager.Scheduler.Observed.Transitions
use download_manager.Scheduler.Observed.Settling

module _ {W : Type 0} where
  abbrev pub AllObserved : Scheduler W → Type 0
  AllObserved s = (i : ℕ) → Observed i s

  try_dispatch-Observed :
      (is_cancelled : ℕ → Bool) (s : Scheduler W)
      → AllObserved s
      → AllObserved (try_dispatch is_cancelled s)
  unfolding try_dispatch
  try_dispatch-Observed is_cancelled s all =
      dispatch_loop_induction AllObserved is_cancelled
        (λ _ id rest s _ _ all i. record {
          named = (all i).named;
          seen = (all i).seen;
          ordered = (all i).ordered;
        })
        (λ id rest s _ _ all i.
          Transitions.on_dispatch-Observed i (record s { ready = rest })
            (record { named = (all i).named; seen = (all i).seen; ordered = (all i).ordered }) id)
        (length s.ready) s all

  module _ (env : Env W) where
    cancel_each-Observed :
        (ids : List ℕ) (s : Scheduler W) → AllObserved s → AllObserved (cancel_each env ids s)
    unfolding cancel_each
    cancel_each-Observed [] s all = all
    cancel_each-Observed (id ∷ ids) s all =
        cancel_each-Observed ids (on_cancel env id s)
          (λ i. Transitions.on_cancel-Observed i s (all i) id env (all id).named)

    handle_cmd-Observed :
        (cmd : SchedulerCmd) (s : Scheduler W) {t : Scheduler W}
        → FreshCommand cmd s
        → AllObserved s
        → handle_cmd env cmd s ≡ some t
        → AllObserved t
    unfolding handle_cmd transition_job
    handle_cmd-Observed (enqueue id request progress_tx result_tx) s fresh all e i =
        subst (Observed i) (some_inj e) (
          Transitions.schedule-Observed i s (all i) id
            (new_job env id request progress_tx result_tx) fresh.0 refl)
    handle_cmd-Observed (pause id a) s fresh all e i =
        subst (Observed i) (some_inj e)
          (Transitions.on_pause-Observed i s (all i) id env (all id).named a)
    handle_cmd-Observed (resume id a) s fresh all e i =
        subst (Observed i) (some_inj e) (Transitions.on_resume-Observed i s (all i) id env a)
    handle_cmd-Observed (cancel id) s fresh all e i =
        subst (Observed i) (some_inj e)
          (Transitions.on_cancel-Observed i s (all i) id env (all id).named)
    handle_cmd-Observed cancel_all s fresh all e i =
        let o = cancel_each-Observed (keys s.jobs) s all i in
        subst (Observed i) (some_inj e)
          (record { named = o.named; seen = o.seen; ordered = o.ordered })
    handle_cmd-Observed (set_max_concurrent n) s fresh all e i =
        subst (Observed i) (some_inj e)
          (record { named = (all i).named; seen = (all i).seen; ordered = (all i).ordered })

    -- A worker that is found belongs to a job that has one.
    found-active :
        (place : ℕ) (s : Scheduler W) (first : Worker) (others : List Worker)
        → AllPlaced s
        → s.workers ≡ first ∷ others
        → active_at (lookup (take_at place first others).0.id s.jobs) ≡ 1
    found-active place s first others placed busy =
        let id = (take_at place first others).0.id in
        omega (
          arith,
          (placed id).works,
          ap (tally (worker_of id)) busy,
          tally-take_at (worker_of id) place first others,
          ap bit (==_self id),
          active_at-le-one (lookup id s.jobs),
        )

    worker_done-Observed :
        (place : ℕ) (result : Result WorkerResult) (s : Scheduler W) {t : Scheduler W}
        → AllPlaced s
        → AllObserved s
        → on_next env (worker place result) s ≡ some t
        → AllObserved t
    unfolding on_next transition_job
    worker_done-Observed place result s placed all e i = elim (List-cases s.workers) [
      | inl idle ↦ subst (Observed i) (some_inj (rw (idle, on_next) at e)) (all i)
      | inr (first, others, busy) ↦
          let (found, left) = take_at place first others in
          Settling.on_worker-Observed env i found.id result (record s { workers = left })
            (found-active place s first others placed busy) (all found.id).named
            (record { named = (all i).named; seen = (all i).seen; ordered = (all i).ordered })
            (rw (busy, on_next) at e)
    ]

    retry_due-Observed :
        (place : ℕ) (s : Scheduler W) {t : Scheduler W}
        → AllObserved s
        → on_next env (retry place) s ≡ some t
        → AllObserved t
    unfolding on_next transition_job
    retry_due-Observed place s all e i = elim (List-cases s.delayed) [
      | inl idle ↦ subst (Observed i) (some_inj (rw (idle, on_next) at e)) (all i)
      | inr (first, others, waits) ↦
          let (found, rest) = take_at place first others in
          subst (Observed i) (some_inj (rw (waits, on_next) at e)) (
            Transitions.on_retry_elapsed-Observed i (record s { delayed = rest })
              (record { named = (all i).named; seen = (all i).seen; ordered = (all i).ordered })
              found.0 found.1)
    ]

    on_next-Observed :
        (next : Next) (s : Scheduler W) {t : Scheduler W}
        → AllPlaced s
        → AllObserved s
        → Fresh next s
        → on_next env next s ≡ some t
        → AllObserved t
    unfolding on_next
    on_next-Observed (command cmd) s placed all fresh e = handle_cmd-Observed cmd s fresh all e
    on_next-Observed (worker place result) s placed all fresh e =
        worker_done-Observed place result s placed all e
    on_next-Observed (retry place) s placed all fresh e = retry_due-Observed place s all e
    on_next-Observed _ s placed all fresh e = λ i. subst (Observed i) (some_inj e) (all i)

    round-Observed :
        (next : Next) (is_cancelled : ℕ → Bool) (s t : Scheduler W)
        → AllPlaced s × AllObserved s
        → Fresh next s
        → round env next is_cancelled s ≡ some t
        → AllPlaced t × AllObserved t
    unfolding round
    round-Observed next is_cancelled s t (placed, all) fresh e =
        let (s', stepped, dispatched) = >>=-eq-some (on_next env next s) _ e in
        (
          round-Placed env next is_cancelled s t placed fresh e,
          λ i. subst (Observed i) (some_inj dispatched) (
              try_dispatch-Observed is_cancelled s'
                (on_next-Observed next s placed all fresh stepped) i),
        )

    new-Observed : (max_concurrent : ℕ) (disk : W) → AllObserved (new max_concurrent disk)
    unfolding new
    new-Observed max_concurrent disk i = record {
      named = rw (lookup-nil {V = Job} i) tt;
      seen = rw (lookup-nil {V = Job} i);
      ordered = refl;
    }

    -- In every state that rounds with fresh ids lead to from the start, the events broadcast about a
    -- download tell the stage of its job: what the last of them announced is where the job stands
    -- (nowhere, before the first and after the final one), and every one of them is allowed by the
    -- grammar of events at the stage that those before it announced.
    pub Reach-Observed :
        (max_concurrent : ℕ) (disk : W) {s : Scheduler W}
        → Reach env (new max_concurrent disk) s
        → (i : ℕ) → (observed i s.log ≡ stage (lookup i s.jobs)) × (orderly i s.log ≡ true)
    Reach-Observed max_concurrent disk r i =
        let (placed, all) =
          Reach-induction env (λ s. AllPlaced s × AllObserved s) round-Observed
            (new-Placed env max_concurrent disk, new-Observed max_concurrent disk) r in
        ((all i).seen, (all i).ordered)
