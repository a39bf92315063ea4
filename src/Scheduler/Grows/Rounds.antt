-- ===== src/Scheduler/Grows/Rounds.antt =====
-- scheduler.rs: the log only grows, round by round.
use download_manager.Base.{
  ℕ, ◌≡◌, Bool, some, some_inj, List, [], ◌∷◌, length, keys, subst, take_at, List-cases, inl, inr,
}
use download_manager.Job.{Log}
use download_manager.Scheduler.State.{
  Env, Scheduler, enqueue, pause, resume, cancel, cancel_all, set_max_concurrent,
}
use download_manager.Scheduler.Transition.{on_cancel, transition_job}
use download_manager.Scheduler.Loop.{
  Next, command, worker, retry, try_dispatch, cancel_each, new_job, >>=-eq-some, handle_cmd,
  on_next, round,
}
use download_manager.Scheduler.Reach.{Reach, Reach-induction}
use download_manager.Scheduler.Rounds.{dispatch_loop_induction}
use download_manager.Scheduler.Grows.{
  Grows, length-Grows, on_dispatch-Grows, on_retry_elapsed-Grows, on_pause-Grows, on_resume-Grows,
  on_cancel-Grows, schedule-Grows, on_worker-Grows,
}

module _ {W : Type 0} (n : ℕ) (old : Log) where
  abbrev Grown : Scheduler W → Type 0
  Grown s = Grows n old s.log

  module _ (env : Env W) where
    cancel_each-Grown : (ids : List ℕ) (s : Scheduler W) → Grown s → Grown (cancel_each env ids s)
    unfolding cancel_each
    cancel_each-Grown [] s g = g
    cancel_each-Grown (id ∷ ids) s g =
        cancel_each-Grown ids (on_cancel env id s) (on_cancel-Grows n old s g env id)

    try_dispatch-Grown :
        (is_cancelled : ℕ → Bool) (s : Scheduler W) → Grown s → Grown (try_dispatch is_cancelled s)
    unfolding try_dispatch
    try_dispatch-Grown is_cancelled s g =
        dispatch_loop_induction Grown is_cancelled (λ _ id rest s _ _ g. g)
          (λ id rest s _ _ g. on_dispatch-Grows n old (record s { ready = rest }) g id)
          (length s.ready) s g

    on_next-Grown :
        (next : Next) (s : Scheduler W) {t : Scheduler W}
        → Grown s
        → on_next env next s ≡ some t
        → Grown t
    unfolding on_next handle_cmd transition_job
    on_next-Grown (command (enqueue id request progress_tx result_tx)) s g e =
        subst Grown (some_inj e)
          (schedule-Grows n old s g (new_job env id request progress_tx result_tx))
    on_next-Grown (command (pause id ack)) s g e =
        subst Grown (some_inj e) (on_pause-Grows n old s g env id ack)
    on_next-Grown (command (resume id ack)) s g e =
        subst Grown (some_inj e) (on_resume-Grows n old s g env id ack)
    on_next-Grown (command (cancel id)) s g e =
        subst Grown (some_inj e) (on_cancel-Grows n old s g env id)
    on_next-Grown (command cancel_all) s g e =
        subst Grown (some_inj e) (cancel_each-Grown (keys s.jobs) s g)
    on_next-Grown (command (set_max_concurrent k)) s g e = subst Grown (some_inj e) g
    on_next-Grown (worker place result) s g e = elim (List-cases s.workers) [
      | inl idle ↦ subst Grown (some_inj (rw (idle, on_next) at e)) g
      | inr (first, others, busy) ↦
          let (found, rest) = take_at place first others in
          on_worker-Grows n old (record s { workers = rest }) g env found.id result
            (rw (busy, on_next) at e)
    ]
    on_next-Grown (retry place) s g e = elim (List-cases s.delayed) [
      | inl idle ↦ subst Grown (some_inj (rw (idle, on_next) at e)) g
      | inr (first, others, waits) ↦
          let (found, rest) = take_at place first others in
          subst Grown (some_inj (rw (waits, on_next) at e))
            (on_retry_elapsed-Grows n old (record s { delayed = rest }) g found.0 found.1)
    ]
    on_next-Grown _ s g e = subst Grown (some_inj e) g

    round-Grown :
        (next : Next) (is_cancelled : ℕ → Bool) (s : Scheduler W) {t : Scheduler W}
        → Grown s
        → round env next is_cancelled s ≡ some t
        → Grown t
    unfolding round
    round-Grown next is_cancelled s g e =
        let (s', stepped, dispatched) = >>=-eq-some (on_next env next s) _ e in
        subst Grown (some_inj dispatched)
          (try_dispatch-Grown is_cancelled s' (on_next-Grown next s g stepped))

-- What is in the log of a state stays at the bottom of the log of each one that it leads to.
pub Reach-Grows :
    {W : Type 0} (env : Env W) {s t : Scheduler W}
    → Reach env s t
    → Grows (length s.log) s.log t.log
Reach-Grows env {s} r =
    Reach-induction env (λ t. Grows (length s.log) s.log t.log)
      (λ next is_cancelled s' t g fresh e.
        round-Grown (length s.log) s.log env next is_cancelled s' g e)
      (length-Grows s.log) r
