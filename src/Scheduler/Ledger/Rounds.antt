-- ===== src/Scheduler/Ledger/Rounds.antt =====
-- scheduler.rs: the balance over rounds.
use download_manager.Base.{
  ℕ, ◌+◌, ◌≡◌, Bool, refl, ◌∙◌, subst, some, some_inj, List, [], ◌∷◌, arith, keys, length, tally,
  take_at, Unique, List-cases, inl, inr,
}
use native.Mathlib.Nat.{add-zero}
use download_manager.Error.{Result}
use download_manager.Job.{WorkerResult}
use download_manager.Scheduler.State.{
  Env, Scheduler, SchedulerCmd, enqueue, pause, resume, cancel, cancel_all, set_max_concurrent, new,
}
use download_manager.Scheduler.Transition.{
  on_dispatch, on_cancel, on_retry_elapsed, on_worker, transition_job,
}
use download_manager.Scheduler.Loop.{
  Next, command, worker, retry, try_dispatch, cancel_each, new_job, >>=-eq-some, handle_cmd,
  on_next, round,
}
use download_manager.Scheduler.Reach.{Fresh, FreshCommand, Reach, here, step}
use download_manager.Scheduler.Rounds.{dispatch_loop_induction}
use download_manager.Scheduler.Ledger.{balance, entry, paid}
use download_manager.Scheduler.Ledger.Transitions
use download_manager.Scheduler.Ledger.Keys

module _ (ack res : ℕ → ℕ) where
  -- What a round's input asks of the scheduler: an answer to a pause or a resume, and a result for a
  -- new download.
  abbrev pub asked : Next → ℕ
  asked (command (enqueue _ _ _ result_tx)) = res result_tx
  asked (command (pause _ a)) = ack a
  asked (command (resume _ a)) = ack a
  asked _ = 0

  -- The table is a map, and what was asked is owed or paid.
  pub record Accounts {W : Type 0} (total : ℕ) (s : Scheduler W) : Type 0 where
    pub unique : Unique s.jobs
    pub balanced : balance ack res s ≡ total

  module _ {W : Type 0} (env : Env W) (n : ℕ) where
    on_dispatch-Accounts : (id : ℕ) (s : Scheduler W) → Accounts n s → Accounts n (on_dispatch id s)
    on_dispatch-Accounts id s a = record {
      unique = Keys.on_dispatch-Unique env id s a.unique;
      balanced = Transitions.on_dispatch-balance env ack res id s ∙ a.balanced;
    }

    on_cancel-Accounts : (id : ℕ) (s : Scheduler W) → Accounts n s → Accounts n (on_cancel env id s)
    on_cancel-Accounts id s a = record {
      unique = Keys.on_cancel-Unique env id s a.unique;
      balanced = Transitions.on_cancel-balance env ack res id s a.unique ∙ a.balanced;
    }

    pub cancel_each-Accounts :
        (ids : List ℕ) (s : Scheduler W) → Accounts n s → Accounts n (cancel_each env ids s)
    unfolding cancel_each
    cancel_each-Accounts [] s a = a
    cancel_each-Accounts (id ∷ ids) s a =
        cancel_each-Accounts ids (on_cancel env id s) (on_cancel-Accounts id s a)

    try_dispatch-Accounts :
        (is_cancelled : ℕ → Bool) (s : Scheduler W)
        → Accounts n s
        → Accounts n (try_dispatch is_cancelled s)
    unfolding try_dispatch
    try_dispatch-Accounts is_cancelled s a =
        dispatch_loop_induction (Accounts n) is_cancelled
          (λ _ id rest s _ _ a. record { unique = a.unique; balanced = a.balanced })
          (λ id rest s _ _ a.
            on_dispatch-Accounts id (record s { ready = rest })
              (record { unique = a.unique; balanced = a.balanced }))
          (length s.ready) s a

    pub handle_cmd-Accounts :
        (cmd : SchedulerCmd) (s : Scheduler W) {t : Scheduler W}
        → FreshCommand cmd s
        → Accounts n s
        → handle_cmd env cmd s ≡ some t
        → Accounts (n + asked (command cmd)) t
    unfolding handle_cmd transition_job
    handle_cmd-Accounts (enqueue id request progress_tx result_tx) s fresh a e =
        let job = new_job env id request progress_tx result_tx in
        subst (Accounts _) (some_inj e) (record {
          unique = Keys.schedule-Unique env id s a.unique job;
          balanced =
              omega (arith, Transitions.schedule-balance env ack res id s job fresh.0, a.balanced);
        })
    handle_cmd-Accounts (pause id k) s fresh a e = subst (Accounts _) (some_inj e) (record {
      unique = Keys.on_pause-Unique env id s a.unique k;
      balanced = omega (arith, Transitions.on_pause-balance env ack res id s k, a.balanced);
    })
    handle_cmd-Accounts (resume id k) s fresh a e = subst (Accounts _) (some_inj e) (record {
      unique = Keys.on_resume-Unique env id s a.unique k;
      balanced = omega (arith, Transitions.on_resume-balance env ack res id s k, a.balanced);
    })
    handle_cmd-Accounts (cancel id) s fresh a e =
        subst (Accounts _) (some_inj e) (rw add-zero (on_cancel-Accounts id s a))
    handle_cmd-Accounts cancel_all s fresh a e =
        let b = cancel_each-Accounts (keys s.jobs) s a in
        subst (Accounts _) (some_inj e)
          (rw add-zero (record { unique = b.unique; balanced = b.balanced }))
    handle_cmd-Accounts (set_max_concurrent m) s fresh a e =
        subst (Accounts _) (some_inj e)
          (rw add-zero (record { unique = a.unique; balanced = a.balanced }))

    on_worker-Accounts :
        (id : ℕ) (result : Result WorkerResult) (s : Scheduler W) {t : Scheduler W}
        → Accounts n s
        → on_worker env id result s ≡ some t
        → Accounts n t
    on_worker-Accounts id result s a e = record {
      unique = Keys.on_worker-Unique env id result s a.unique e;
      balanced = Transitions.on_worker-balance env ack res id s result a.unique e ∙ a.balanced;
    }

    on_retry_elapsed-Accounts :
        (id attempt : ℕ) (s : Scheduler W)
        → Accounts n s
        → Accounts n (on_retry_elapsed id attempt s)
    on_retry_elapsed-Accounts id attempt s a = record {
      unique = Keys.on_retry_elapsed-Unique env id s a.unique attempt;
      balanced = Transitions.on_retry_elapsed-balance env ack res id s attempt ∙ a.balanced;
    }

    pub worker_done-Accounts :
        (place : ℕ) (result : Result WorkerResult) (s : Scheduler W) {t : Scheduler W}
        → Accounts n s
        → on_next env (worker place result) s ≡ some t
        → Accounts n t
    unfolding on_next transition_job
    worker_done-Accounts place result s a e = elim (List-cases s.workers) [
      | inl idle ↦ subst (Accounts n) (some_inj (rw (idle, on_next) at e)) a
      | inr (first, others, busy) ↦
          let (found, rest) = take_at place first others in
          on_worker-Accounts found.id result (record s { workers = rest })
            (record { unique = a.unique; balanced = a.balanced }) (rw (busy, on_next) at e)
    ]

    retry_due-Accounts :
        (place : ℕ) (s : Scheduler W) {t : Scheduler W}
        → Accounts n s
        → on_next env (retry place) s ≡ some t
        → Accounts n t
    unfolding on_next transition_job
    retry_due-Accounts place s a e = elim (List-cases s.delayed) [
      | inl idle ↦ subst (Accounts n) (some_inj (rw (idle, on_next) at e)) a
      | inr (first, others, waits) ↦
          let (found, rest) = take_at place first others in
          subst (Accounts n) (some_inj (rw (waits, on_next) at e)) (
            on_retry_elapsed-Accounts found.0 found.1 (record s { delayed = rest })
              (record { unique = a.unique; balanced = a.balanced }))
    ]

    on_next-Accounts :
        (next : Next) (s : Scheduler W) {t : Scheduler W}
        → Accounts n s
        → Fresh next s
        → on_next env next s ≡ some t
        → Accounts (n + asked next) t
    unfolding on_next
    on_next-Accounts (command cmd) s a fresh e = handle_cmd-Accounts cmd s fresh a e
    on_next-Accounts (worker place result) s a fresh e =
        rw add-zero (worker_done-Accounts place result s a e)
    on_next-Accounts (retry place) s a fresh e = rw add-zero (retry_due-Accounts place s a e)
    on_next-Accounts _ s a fresh e = rw add-zero (subst (Accounts n) (some_inj e) a)

  module _ {W : Type 0} (env : Env W) where
    pub round-Accounts :
        (n : ℕ) (next : Next) (is_cancelled : ℕ → Bool) (s : Scheduler W) {t : Scheduler W}
        → Accounts n s
        → Fresh next s
        → round env next is_cancelled s ≡ some t
        → Accounts (n + asked next) t
    unfolding round
    round-Accounts n next is_cancelled s a fresh e =
        let (s', stepped, dispatched) = >>=-eq-some (on_next env next s) _ e in
        subst (Accounts _) (some_inj dispatched) (
          try_dispatch-Accounts env (n + asked next) is_cancelled s'
            (on_next-Accounts env n next s a fresh stepped))

    -- All that the rounds so far have asked.
    abbrev pub asked_in : {start s : Scheduler W} → Reach env start s → ℕ
    asked_in here = 0
    asked_in (step next is_cancelled r fresh e) = asked_in r + asked next

    pub Reach-Accounts :
        (max_concurrent : ℕ) (disk : W) {s : Scheduler W}
        (r : Reach env (new max_concurrent disk) s)
        → Accounts (asked_in r) s
    unfolding new
    Reach-Accounts max_concurrent disk here = record { unique = λ k. omega arith; balanced = refl }
    Reach-Accounts max_concurrent disk (step {s = s} next is_cancelled r fresh e) =
        round-Accounts (asked_in r) next is_cancelled s (Reach-Accounts max_concurrent disk r) fresh
          e

    -- In every state that rounds with fresh ids lead to from the start, and however the channels are
    -- weighed, what the jobs in the table owe and what has been sent weigh together what the rounds
    -- have asked: no result or acknowledgement is lost, sent twice or sent unasked.
    pub Reach-balance :
        (max_concurrent : ℕ) (disk : W) {s : Scheduler W}
        (r : Reach env (new max_concurrent disk) s)
        → tally (entry ack res) s.jobs + tally (paid ack res) s.log ≡ asked_in r
    Reach-balance max_concurrent disk r = (Reach-Accounts max_concurrent disk r).balanced
