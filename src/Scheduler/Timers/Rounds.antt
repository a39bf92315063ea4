-- ===== src/Scheduler/Timers/Rounds.antt =====
-- scheduler.rs: rounds keep the timers in step with the jobs.
use download_manager.Base.{
  ℕ, ◌+◌, ◌≤◌, ◌≡◌, Bool, Option, some, some_inj, List, [], ◌∷◌, arith, length, take_at, lookup,
  lookup-nil, List-cases, inl, inr, subst, refl, tally, tally-take_at, ap,
}
use download_manager.Job.{Job}
use download_manager.Scheduler.State.{
  Env, Scheduler, SchedulerCmd, enqueue, pause, resume, cancel, cancel_all, set_max_concurrent, new,
}
use download_manager.Scheduler.Transition.{transition_job}
use download_manager.Scheduler.Loop.{
  Next, command, worker, retry, try_dispatch, new_job, >>=-eq-some, handle_cmd, on_next, round,
}
use download_manager.Scheduler.Reach.{Reach, here, step, Fresh, FreshCommand, timer_of}
use download_manager.Scheduler.Rounds.{dispatch_loop_induction}
use download_manager.Scheduler.Shutdown.{live_at, cancel_each_all}
use download_manager.Scheduler.Retries.{attempt_of, retries_of}
use download_manager.Scheduler.Retries.Rounds.{AllBounded, AllWithin, Reach-Bounded}
use download_manager.Scheduler.Timers
use download_manager.Scheduler.Timers.{Timed, timer, retry_at, reached}

abbrev pub AllTimed : {W : Type 0} → ℕ → Scheduler W → Type 0
AllTimed a s = (i : ℕ) → Timed i a s

timer-le-timer_of :
    (i a : ℕ) (timers : List (ℕ × ℕ)) → tally (timer i a) timers ≤ tally (timer_of i) timers
timer-le-timer_of i a [] = omega arith
timer-le-timer_of i a ((id, attempt) ∷ timers) = ground (arith, timer-le-timer_of i a timers)

cancelled_not_retrying : (a : ℕ) (slot : Option Job) → live_at slot ≡ 0 → retry_at a slot ≡ 0
cancelled_not_retrying a slot h = ground arith

module _ {W : Type 0} (env : Env W) (a : ℕ) where
  try_dispatch-Timed :
      (is_cancelled : ℕ → Bool) (i : ℕ) (s : Scheduler W)
      → Timed i a s
      → Timed i a (try_dispatch is_cancelled s)
  unfolding try_dispatch
  try_dispatch-Timed is_cancelled i s b =
      dispatch_loop_induction (Timed i a) is_cancelled
        (λ _ id rest s _ _ b. record { once = b.once; armed = b.armed })
        (λ id rest s _ _ b.
          Timers.on_dispatch-Timed i a (record s { ready = rest })
            (record { once = b.once; armed = b.armed }) id)
        (length s.ready) s b

  handle_cmd-Timed :
      (i : ℕ) (cmd : SchedulerCmd) (s : Scheduler W) {t : Scheduler W}
      → FreshCommand cmd s
      → Timed i a s
      → handle_cmd env cmd s ≡ some t
      → Timed i a t
  unfolding handle_cmd transition_job
  handle_cmd-Timed i (enqueue id request progress_tx result_tx) s fresh b e =
      subst (Timed i a) (some_inj e) (
        Timers.schedule-Timed i a s b (new_job env id request progress_tx result_tx) refl
          (omega (arith, timer-le-timer_of id a s.delayed, fresh.1)))
  handle_cmd-Timed i (pause id k) s fresh b e =
      subst (Timed i a) (some_inj e) (Timers.on_pause-Timed i a s b env id k)
  handle_cmd-Timed i (resume id k) s fresh b e =
      subst (Timed i a) (some_inj e) (Timers.on_resume-Timed i a s b env id k)
  handle_cmd-Timed i (cancel id) s fresh b e =
      subst (Timed i a) (some_inj e) (Timers.on_cancel-Timed i a s b env id)
  handle_cmd-Timed i cancel_all s fresh b e = subst (Timed i a) (some_inj e) (record {
    once = omega arith;
    armed = omega (arith, cancelled_not_retrying a _ (cancel_each_all env i s));
  })
  handle_cmd-Timed i (set_max_concurrent m) s fresh b e =
      subst (Timed i a) (some_inj e) (record { once = b.once; armed = b.armed })

  on_next-Timed :
      (next : Next) (s : Scheduler W) {t : Scheduler W}
      → AllTimed a s
      → AllBounded 4294967295 s
      → Fresh next s
      → on_next env next s ≡ some t
      → AllTimed a t
  unfolding on_next transition_job
  on_next-Timed (command cmd) s all b fresh e i = handle_cmd-Timed i cmd s fresh (all i) e
  on_next-Timed (worker place result) s all b fresh e i = elim (List-cases s.workers) [
    | inl idle ↦ subst (Timed i a) (some_inj (rw (idle, on_next) at e)) (all i)
    | inr (first, others, busy) ↦
        let (found, rest) = take_at place first others in
        Timers.on_worker-Timed env i a found.id result (record s { workers = rest })
          (record { once = (all i).once; armed = (all i).armed })
          (record { once = (all found.id).once; armed = (all found.id).armed })
          (record { tried = (b found.id).tried; limited = (b found.id).limited })
          (rw (busy, on_next) at e)
  ]
  on_next-Timed (retry place) s all b fresh e i = elim (List-cases s.delayed) [
    | inl idle ↦ subst (Timed i a) (some_inj (rw (idle, on_next) at e)) (all i)
    | inr (first, others, waits) ↦
        let found = (take_at place first others).0 in
        let rest = (take_at place first others).1 in
        let counted : tally (timer i a) rest + timer i a found ≡ tally (timer i a) s.delayed =
          omega
            (arith, tally-take_at (timer i a) place first others, ap (tally (timer i a)) waits) in
        subst (Timed i a) (some_inj (rw (waits, on_next) at e)) (
          Timers.on_retry_elapsed-Timed i a found.0 found.1 (record s { delayed = rest })
            (omega (arith, counted, (all i).once)) (omega (arith, counted, (all i).armed)))
  ]
  on_next-Timed _ s all b fresh e i = subst (Timed i a) (some_inj e) (all i)

  round-Timed :
      (next : Next) (is_cancelled : ℕ → Bool) (s : Scheduler W) {t : Scheduler W}
      → AllTimed a s
      → AllBounded 4294967295 s
      → Fresh next s
      → round env next is_cancelled s ≡ some t
      → AllTimed a t
  unfolding round
  round-Timed next is_cancelled s all b fresh e i =
      let (s', stepped, dispatched) = >>=-eq-some (on_next env next s) _ e in
      subst (Timed i a) (some_inj dispatched)
        (try_dispatch-Timed is_cancelled i s' (on_next-Timed next s all b fresh stepped i))

module _ {W : Type 0} (env : Env W) (max_concurrent : ℕ) (disk : W) where
  Fresh-Within :
      {s : Scheduler W} (r : Reach env (new max_concurrent disk) s) → AllWithin 4294967295 r
  Fresh-Within here = tt
  Fresh-Within (step (command (enqueue id request _ _)) is_cancelled r fresh e) =
      (omega (arith, fresh.2), Fresh-Within r)
  Fresh-Within (step (command _) is_cancelled r fresh e) = (tt, Fresh-Within r)
  Fresh-Within (step _ is_cancelled r fresh e) = (tt, Fresh-Within r)

  Reach-AllTimed : (a : ℕ) {s : Scheduler W} → Reach env (new max_concurrent disk) s → AllTimed a s
  unfolding new
  Reach-AllTimed a here i = ground (arith, lookup-nil {V = Job} i)
  Reach-AllTimed a (step {s = s} next is_cancelled r fresh e) i =
      round-Timed env a next is_cancelled s (Reach-AllTimed a r)
        (Reach-Bounded env 4294967295 (omega arith) max_concurrent disk r (Fresh-Within r)) fresh e
        i

  -- In every state that rounds with fresh ids lead to from the start: a job has not tried more often
  -- than its request allows; a job that waits for the retry of an attempt has exactly one timer for
  -- it; any other attempt has one timer at most, and an attempt that the job has not reached has none.
  pub Reach-Timed :
      {s : Scheduler W}
      → Reach env (new max_concurrent disk) s
      → (i a : ℕ)
      → (attempt_of (lookup i s.jobs) ≤ retries_of (lookup i s.jobs))
        × (retry_at a (lookup i s.jobs) ≤ tally (timer i a) s.delayed)
        × (tally (timer i a) s.delayed ≤ reached a (lookup i s.jobs))
  Reach-Timed r i a =
      let b = Reach-Bounded env 4294967295 (omega arith) max_concurrent disk r (Fresh-Within r) i in
      let h = Reach-AllTimed a r i in (b.tried, h.armed, h.once)
