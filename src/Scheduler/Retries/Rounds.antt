-- ===== src/Scheduler/Retries/Rounds.antt =====
-- scheduler.rs: rounds keep the attempts within their limit, and do not panic where it is 64 or less.
use download_manager.Base.{
  ℕ, ◌≤◌, ◌<◌, ◌≡◌, Bool, some, some_inj, List, [], ◌∷◌, arith, keys, length, take_at, lookup-nil,
  List-cases, inl, inr, subst, refl,
}
use download_manager.Job.{Job}
use download_manager.Scheduler.State.{
  Env, Scheduler, SchedulerCmd, enqueue, pause, resume, cancel, cancel_all, set_max_concurrent, new,
}
use download_manager.Scheduler.Transition.{on_cancel, transition_job}
use download_manager.Scheduler.Loop.{
  Next, command, worker, retry, try_dispatch, cancel_each, new_job, >>=-eq-some, handle_cmd,
  on_next, round,
}
use download_manager.Scheduler.Reach.{Reach, here, step}
use download_manager.Scheduler.Rounds.{dispatch_loop_induction}
use download_manager.Scheduler.Retries
use download_manager.Scheduler.Retries.{Bounded}

-- The request of an `Enqueue` has at most `limit` retries.
abbrev pub Within : ℕ → Next → Type 0
Within limit (command (enqueue _ request _ _)) = request.config.retries ≤ limit
Within limit _ = Unit {0}

abbrev pub AllWithin :
    {W : Type 0} {env : Env W} {start s : Scheduler W} → ℕ → Reach env start s → Type 0
AllWithin limit here = Unit {0}
AllWithin limit (step next is_cancelled r fresh e) = Within limit next × AllWithin limit r

abbrev pub AllBounded : {W : Type 0} → ℕ → Scheduler W → Type 0
AllBounded limit s = (i : ℕ) → Bounded limit i s

module _ {W : Type 0} (env : Env W) (limit : ℕ) where
  try_dispatch-Bounded :
      (is_cancelled : ℕ → Bool) (i : ℕ) (s : Scheduler W)
      → Bounded limit i s
      → Bounded limit i (try_dispatch is_cancelled s)
  unfolding try_dispatch
  try_dispatch-Bounded is_cancelled i s b =
      dispatch_loop_induction (Bounded limit i) is_cancelled
        (λ _ id rest s _ _ b. record { tried = b.tried; limited = b.limited })
        (λ id rest s _ _ b.
          Retries.on_dispatch-Bounded limit i (record s { ready = rest })
            (record { tried = b.tried; limited = b.limited }) id)
        (length s.ready) s b

  cancel_each-Bounded :
      (i : ℕ) (ids : List ℕ) (s : Scheduler W)
      → Bounded limit i s
      → Bounded limit i (cancel_each env ids s)
  unfolding cancel_each
  cancel_each-Bounded i [] s b = b
  cancel_each-Bounded i (id ∷ ids) s b =
      cancel_each-Bounded i ids (on_cancel env id s) (Retries.on_cancel-Bounded limit i s b env id)

  handle_cmd-Bounded :
      (i : ℕ) (cmd : SchedulerCmd) (s : Scheduler W) {t : Scheduler W}
      → Within limit (command cmd)
      → Bounded limit i s
      → handle_cmd env cmd s ≡ some t
      → Bounded limit i t
  unfolding handle_cmd transition_job
  handle_cmd-Bounded i (enqueue id request progress_tx result_tx) s w b e =
      subst (Bounded limit i) (some_inj e)
        (Retries.schedule-Bounded limit i s b (new_job env id request progress_tx result_tx) refl w)
  handle_cmd-Bounded i (pause id a) s w b e =
      subst (Bounded limit i) (some_inj e) (Retries.on_pause-Bounded limit i s b env id a)
  handle_cmd-Bounded i (resume id a) s w b e =
      subst (Bounded limit i) (some_inj e) (Retries.on_resume-Bounded limit i s b env id a)
  handle_cmd-Bounded i (cancel id) s w b e =
      subst (Bounded limit i) (some_inj e) (Retries.on_cancel-Bounded limit i s b env id)
  handle_cmd-Bounded i cancel_all s w b e =
      let c = cancel_each-Bounded i (keys s.jobs) s b in
      subst (Bounded limit i) (some_inj e) (record { tried = c.tried; limited = c.limited })
  handle_cmd-Bounded i (set_max_concurrent m) s w b e =
      subst (Bounded limit i) (some_inj e) (record { tried = b.tried; limited = b.limited })

  module _ (small : limit < 4294967296) where
    on_next-Bounded :
        (next : Next) (s : Scheduler W) {t : Scheduler W}
        → AllBounded limit s
        → Within limit next
        → on_next env next s ≡ some t
        → AllBounded limit t
    unfolding on_next transition_job
    on_next-Bounded (command cmd) s all w e i = handle_cmd-Bounded i cmd s w (all i) e
    on_next-Bounded (worker place result) s all w e i = elim (List-cases s.workers) [
      | inl idle ↦ subst (Bounded limit i) (some_inj (rw (idle, on_next) at e)) (all i)
      | inr (first, others, busy) ↦
          let (found, rest) = take_at place first others in
          Retries.on_worker-Bounded env limit i found.id small result (record s { workers = rest })
            (record { tried = (all i).tried; limited = (all i).limited })
            (record { tried = (all found.id).tried; limited = (all found.id).limited })
            (rw (busy, on_next) at e)
    ]
    on_next-Bounded (retry place) s all w e i = elim (List-cases s.delayed) [
      | inl idle ↦ subst (Bounded limit i) (some_inj (rw (idle, on_next) at e)) (all i)
      | inr (first, others, waits) ↦
          let (found, rest) = take_at place first others in
          subst (Bounded limit i) (some_inj (rw (waits, on_next) at e)) (
            Retries.on_retry_elapsed-Bounded limit i (record s { delayed = rest })
              (record { tried = (all i).tried; limited = (all i).limited }) found.0 found.1)
    ]
    on_next-Bounded _ s all w e i = subst (Bounded limit i) (some_inj e) (all i)

    pub round-Bounded :
        (next : Next) (is_cancelled : ℕ → Bool) (s : Scheduler W) {t : Scheduler W}
        → AllBounded limit s
        → Within limit next
        → round env next is_cancelled s ≡ some t
        → AllBounded limit t
    unfolding round
    round-Bounded next is_cancelled s all w e i =
        let (s', stepped, dispatched) = >>=-eq-some (on_next env next s) _ e in
        subst (Bounded limit i) (some_inj dispatched)
          (try_dispatch-Bounded is_cancelled i s' (on_next-Bounded next s all w stepped i))

    -- In every state that rounds lead to from the start, if no request had more than `limit` retries.
    pub Reach-Bounded :
        (max_concurrent : ℕ) (disk : W) {s : Scheduler W}
        (r : Reach env (new max_concurrent disk) s)
        → AllWithin limit r
        → AllBounded limit s
    unfolding new
    Reach-Bounded max_concurrent disk here w i = ground (arith, lookup-nil {V = Job} i)
    Reach-Bounded max_concurrent disk (step {s = s} next is_cancelled r fresh e) w i =
        round-Bounded next is_cancelled s (Reach-Bounded max_concurrent disk r w.1) w.0 e i
