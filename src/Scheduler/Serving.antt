-- ===== src/Scheduler/Serving.antt =====
-- scheduler.rs: while the root token is not cancelled, no queued job is forgotten and no place stays
-- free.
use download_manager.Base.{
  ℕ, ◌≤◌, ◌≡◌, ◌⊎◌, Bool, false, Option, some, some_inj, List, [], ◌∷◌, arith, count, length,
  take_at, lookup, lookup-nil, lookup-insert, List-cases, inl, inr, subst,
}
use download_manager.Job.{Job}
use download_manager.Scheduler.State.{
  Env, Scheduler, SchedulerCmd, enqueue, pause, resume, cancel, cancel_all, set_max_concurrent, new,
}
use download_manager.Scheduler.Transition.{on_dispatch, transition_job}
use download_manager.Scheduler.Loop.{
  Next, command, worker, retry, try_dispatch, new_job, >>=-eq-some, handle_cmd, on_next, round,
}
use download_manager.Scheduler.Placed
use download_manager.Scheduler.Placed.{Kept, queued_at}
use download_manager.Scheduler.Reach.{Reach, here, step}
use download_manager.Scheduler.Rounds.{dispatch_loop_induction, queued_at-le-one, Reach-Placed}
use download_manager.Scheduler.Shutdown.{live_at, cancel_each_all}
use download_manager.Scheduler.Dispatch.{try_dispatch_fills}

-- A popped id is dispatched: then its job is no longer queued.
on_dispatch_popped :
    {W : Type 0} (i id : ℕ) (rest : List ℕ) (s : Scheduler W)
    → s.ready ≡ id ∷ rest
    → Kept i s
    → Kept i (on_dispatch id (record s { ready = rest }))
unfolding on_dispatch
on_dispatch_popped i id rest s e k = grind (arith, lookup-insert)

module _ {W : Type 0} (i : ℕ) where
  try_dispatch-Kept :
      (is_cancelled : ℕ → Bool) (s : Scheduler W)
      → ((n : ℕ) → is_cancelled n ≡ false)
      → Kept i s
      → Kept i (try_dispatch is_cancelled s)
  unfolding try_dispatch
  try_dispatch-Kept is_cancelled s live k =
      dispatch_loop_induction (Kept i) is_cancelled (λ n _ _ _ gone _ _. cc (live n, gone))
        (λ id rest s _ e k. on_dispatch_popped i id rest s e k) (length s.ready) s k

  module _ (env : Env W) where
    cancelled_not_queued : (slot : Option Job) → live_at slot ≡ 0 → queued_at slot ≡ 0
    cancelled_not_queued slot h = ground arith

    handle_cmd-Kept :
        (cmd : SchedulerCmd) (s : Scheduler W) {t : Scheduler W}
        → Kept i s
        → handle_cmd env cmd s ≡ some t
        → Kept i t
    unfolding handle_cmd transition_job
    handle_cmd-Kept (enqueue id request progress_tx result_tx) s k e =
        subst (Kept i) (some_inj e)
          (Placed.schedule-Kept i s k (new_job env id request progress_tx result_tx))
    handle_cmd-Kept (pause id a) s k e =
        subst (Kept i) (some_inj e) (Placed.on_pause-Kept i s k env id a)
    handle_cmd-Kept (resume id a) s k e =
        subst (Kept i) (some_inj e) (Placed.on_resume-Kept i s k env id a)
    handle_cmd-Kept (cancel id) s k e =
        subst (Kept i) (some_inj e) (Placed.on_cancel-Kept i s k env id)
    handle_cmd-Kept cancel_all s k e =
        subst (Kept i) (some_inj e)
          (record { remembered = omega (arith, cancelled_not_queued _ (cancel_each_all env i s)) })
    handle_cmd-Kept (set_max_concurrent m) s k e =
        subst (Kept i) (some_inj e) (record { remembered = k.remembered })

    on_next-Kept :
        (next : Next) (s : Scheduler W) {t : Scheduler W}
        → Kept i s
        → on_next env next s ≡ some t
        → Kept i t
    unfolding on_next transition_job
    on_next-Kept (command cmd) s k e = handle_cmd-Kept cmd s k e
    on_next-Kept (worker place result) s k e = elim (List-cases s.workers) [
      | inl idle ↦ subst (Kept i) (some_inj (rw (idle, on_next) at e)) k
      | inr (first, others, busy) ↦
          let (found, rest) = take_at place first others in
          Placed.on_worker-Kept env i found.id result (record s { workers = rest })
            (record { remembered = k.remembered }) (rw (busy, on_next) at e)
    ]
    on_next-Kept (retry place) s k e = elim (List-cases s.delayed) [
      | inl idle ↦ subst (Kept i) (some_inj (rw (idle, on_next) at e)) k
      | inr (first, others, waits) ↦
          let (found, rest) = take_at place first others in
          subst (Kept i) (some_inj (rw (waits, on_next) at e)) (
            Placed.on_retry_elapsed-Kept i (record s { delayed = rest })
              (record { remembered = k.remembered }) found.0 found.1)
    ]
    on_next-Kept _ s k e = subst (Kept i) (some_inj e) k

-- Every reading of the root token found it not cancelled.
abbrev pub Uncancelled :
    {W : Type 0} {env : Env W} {start s : Scheduler W} → Reach env start s → Type 0
Uncancelled here = Unit {0}
Uncancelled (step next is_cancelled r fresh e) = ((n : ℕ) → is_cancelled n ≡ false) × Uncancelled r

-- A queued job stands in `ready`, and then all places are taken.
abbrev pub Served : {W : Type 0} → ℕ → Scheduler W → Type 0
Served i s =
    (queued_at (lookup i s.jobs) ≡ 0)
    ⊎ ((count i s.ready ≡ 1) × (s.max_concurrent ≤ length s.workers))

module _ {W : Type 0} (env : Env W) (max_concurrent : ℕ) (disk : W) where
  Reach-Kept :
      (i : ℕ) {s : Scheduler W} (r : Reach env (new max_concurrent disk) s)
      → Uncancelled r
      → Kept i s
  unfolding new round
  Reach-Kept i here live = record { remembered = ground (arith, lookup-nil {V = Job} i) }
  Reach-Kept i (step {s = s} next is_cancelled r fresh e) live =
      let (s', stepped, dispatched) = >>=-eq-some (on_next env next s) _ e in
      subst (Kept i) (some_inj dispatched) (
        try_dispatch-Kept i is_cancelled s' live.0
          (on_next-Kept i env next s (Reach-Kept i r live.1) stepped))

  round_fills :
      (next : Next) (is_cancelled : ℕ → Bool) (s : Scheduler W) {t : Scheduler W}
      → ((n : ℕ) → is_cancelled n ≡ false)
      → round env next is_cancelled s ≡ some t
      → (t.max_concurrent ≤ length t.workers) ⊎ (t.ready ≡ [])
  unfolding round
  round_fills next is_cancelled s live e =
      let (s', stepped, dispatched) = >>=-eq-some (on_next env next s) _ e in
      subst (λ t. (t.max_concurrent ≤ length t.workers) ⊎ (t.ready ≡ [])) (some_inj dispatched)
        (try_dispatch_fills is_cancelled s' live)

  -- As long as the root token has not been found cancelled, in every state that rounds with fresh ids
  -- lead to from the start: a job that is `Queued` stands in `ready` exactly once, and then as many
  -- workers run as the limit allows, or more.
  pub Reach-Served :
      {s : Scheduler W} (r : Reach env (new max_concurrent disk) s)
      → Uncancelled r
      → (i : ℕ) → Served i s
  unfolding new
  Reach-Served here live i = inl (ground (arith, lookup-nil {V = Job} i))
  Reach-Served (step {s = s} {t = t} next is_cancelled r fresh e) live i =
      let whole = step next is_cancelled r fresh e in
      ground (
        arith,
        Reach-Kept i whole live,
        Reach-Placed env max_concurrent disk whole i,
        round_fills next is_cancelled s live.0 e,
        queued_at-le-one (lookup i t.jobs),
      )
