-- ===== src/Scheduler/Rounds.antt =====
-- scheduler.rs: a round of `run` keeps ids in their places.
use download_manager.Base.{
  ℕ, zero, suc, ◌≤◌, ◌≡◌, Bool, Option, some, List, [], ◌∷◌, arith, lookup, subst, ap, refl, count,
  length, tally, tally-take_at, take_at, keys, some_inj, lookup-nil, Bool-cases, List-cases, inl,
  inr, ltb, ltb→lt, ◌<◌, true,
}
use download_manager.Error.{Result}
use download_manager.Job.{Job, WorkerResult}
use download_manager.Scheduler.State.{
  Env, Scheduler, SchedulerCmd, enqueue, pause, resume, cancel, cancel_all, set_max_concurrent, new,
}
use download_manager.Scheduler.Transition.{on_dispatch, on_cancel, transition_job}
use download_manager.Scheduler.Loop.{
  Next, command, worker, retry, dispatch_loop, try_dispatch, cancel_each, new_job, >>=-eq-some,
  handle_cmd, on_next, round,
}
use download_manager.Scheduler.Placed
use download_manager.Scheduler.Placed.{Placed, active_at, queued_at, worker_of}
use download_manager.Scheduler.Reach.{Fresh, FreshCommand, Reach, Reach-induction}

module _ {W : Type 0} (P : Scheduler W → Type 0) (is_cancelled : ℕ → Bool) where
  -- To show a property of the state after `try_dispatch`, show that it survives the loss of an id to
  -- a cancelled root, and a dispatch.
  module _
      (lost : (n id : ℕ) (rest : List ℕ) (s : Scheduler W)
        → is_cancelled n ≡ true
        → s.ready ≡ id ∷ rest
        → P s
        → P (record s { ready = rest }))
      (dispatched : (id : ℕ) (rest : List ℕ) (s : Scheduler W)
        → length s.workers < s.max_concurrent
        → s.ready ≡ id ∷ rest
        → P s
        → P (on_dispatch id (record s { ready = rest }))) where
    pub dispatch_loop_induction :
        (fuel : ℕ) (s : Scheduler W) → P s → P (dispatch_loop fuel is_cancelled s)
    unfolding dispatch_loop
    dispatch_loop_induction zero s p = p
    dispatch_loop_induction (suc fuel) s p =
        elim (Bool-cases (ltb (length s.workers) s.max_concurrent)) [
          | inl room ↦ elim (List-cases s.ready) [
            | inl idle ↦ rw (room, idle, dispatch_loop) p
            | inr (id, rest, waits) ↦ elim (Bool-cases (is_cancelled fuel)) [
              | inl gone ↦ rw (room, waits, gone, dispatch_loop) (lost fuel id rest s gone waits p)
              | inr live ↦
                  rw (room, waits, live, dispatch_loop)
                    (dispatch_loop_induction fuel (on_dispatch id (record s { ready = rest }))
                      (dispatched id rest s (ltb→lt _ _ room) waits p))
            ]
          ]
          | inr full ↦ rw (full, dispatch_loop) p
        ]

pub queued_at-le-one : (slot : Option Job) → queued_at slot ≤ 1
queued_at-le-one slot = ground arith

module _ {W : Type 0} where
  abbrev pub AllPlaced : Scheduler W → Type 0
  AllPlaced s = (i : ℕ) → Placed i s

  pub popped-Placed :
      (i id : ℕ) (rest : List ℕ) (s : Scheduler W)
      → s.ready ≡ id ∷ rest
      → Placed i s
      → Placed i (record s { ready = rest })
  popped-Placed i id rest s e p = ground arith

  pub popped_once :
      (id : ℕ) (rest : List ℕ) (s : Scheduler W)
      → s.ready ≡ id ∷ rest
      → Placed id s
      → count id rest ≡ 0
  popped_once id rest s e p = ground (arith, queued_at-le-one (lookup id s.jobs))

  pub try_dispatch-Placed :
      (is_cancelled : ℕ → Bool) (s : Scheduler W)
      → AllPlaced s
      → AllPlaced (try_dispatch is_cancelled s)
  unfolding try_dispatch
  try_dispatch-Placed is_cancelled s all =
      dispatch_loop_induction AllPlaced is_cancelled
        (λ n id rest s _ e all i. popped-Placed i id rest s e (all i))
        (λ id rest s _ e all i.
          Placed.on_dispatch-Placed i (record s { ready = rest })
            (popped-Placed i id rest s e (all i)) id (popped_once id rest s e (all id)))
        (length s.ready) s all

module _ {W : Type 0} (env : Env W) where
  pub cancel_each-Placed :
      (i : ℕ) (ids : List ℕ) (s : Scheduler W) → Placed i s → Placed i (cancel_each env ids s)
  unfolding cancel_each
  cancel_each-Placed i [] s p = p
  cancel_each-Placed i (id ∷ ids) s p =
      cancel_each-Placed i ids (on_cancel env id s) (Placed.on_cancel-Placed i s p env id)

  pub handle_cmd-Placed :
      (i : ℕ) (cmd : SchedulerCmd) (s : Scheduler W) {t : Scheduler W}
      → FreshCommand cmd s
      → Placed i s
      → handle_cmd env cmd s ≡ some t
      → Placed i t
  unfolding handle_cmd transition_job
  handle_cmd-Placed i (enqueue id request progress_tx result_tx) s fresh p e =
      subst (Placed i) (some_inj e)
        (Placed.schedule-Placed i s p (new_job env id request progress_tx result_tx) fresh.0 refl)
  handle_cmd-Placed i (pause id ack) s fresh p e =
      subst (Placed i) (some_inj e) (Placed.on_pause-Placed i s p env id ack)
  handle_cmd-Placed i (resume id ack) s fresh p e =
      subst (Placed i) (some_inj e) (Placed.on_resume-Placed i s p env id ack)
  handle_cmd-Placed i (cancel id) s fresh p e =
      subst (Placed i) (some_inj e) (Placed.on_cancel-Placed i s p env id)
  handle_cmd-Placed i cancel_all s fresh p e =
      ground (arith, cancel_each-Placed i (keys s.jobs) s p)
  handle_cmd-Placed i (set_max_concurrent n) s fresh p e = grind arith

  worker_done-Placed :
      (place : ℕ) (result : Result WorkerResult) (s : Scheduler W) {t : Scheduler W}
      → AllPlaced s
      → on_next env (worker place result) s ≡ some t
      → AllPlaced t
  unfolding on_next transition_job
  worker_done-Placed place result s all e i = elim (List-cases s.workers) [
    | inl idle ↦ subst (Placed i) (some_inj (rw (idle, on_next) at e)) (all i)
    | inr (first, others, busy) ↦
        Placed.on_worker-Placed env i (take_at place first others).0.id result
          (record s { workers = (take_at place first others).1 }) (all i).waits
          (omega (
            arith,
            (all i).works,
            ap (tally (worker_of i)) busy,
            tally-take_at (worker_of i) place first others,
          ))
          (rw (busy, on_next) at e)
  ]

  retry_due-Placed :
      (place i : ℕ) (s : Scheduler W) {t : Scheduler W}
      → Placed i s
      → on_next env (retry place) s ≡ some t
      → Placed i t
  unfolding on_next transition_job
  retry_due-Placed place i s p e = elim (List-cases s.delayed) [
    | inl idle ↦ subst (Placed i) (some_inj (rw (idle, on_next) at e)) p
    | inr (first, others, waits) ↦
        let (found, rest) = take_at place first others in
        subst (Placed i) (some_inj (rw (waits, on_next) at e)) (
          Placed.on_retry_elapsed-Placed i (record s { delayed = rest })
            (record { waits = p.waits; works = p.works }) found.0 found.1)
  ]

  pub on_next-Placed :
      (next : Next) (s : Scheduler W) {t : Scheduler W}
      → AllPlaced s
      → Fresh next s
      → on_next env next s ≡ some t
      → AllPlaced t
  unfolding on_next
  on_next-Placed (command cmd) s all fresh e i = handle_cmd-Placed i cmd s fresh (all i) e
  on_next-Placed (worker place result) s all fresh e i = worker_done-Placed place result s all e i
  on_next-Placed (retry place) s all fresh e i = retry_due-Placed place i s (all i) e
  on_next-Placed _ s all fresh e i = subst (Placed i) (some_inj e) (all i)

  pub round-Placed :
      (next : Next) (is_cancelled : ℕ → Bool) (s t : Scheduler W)
      → AllPlaced s
      → Fresh next s
      → round env next is_cancelled s ≡ some t
      → AllPlaced t
  unfolding round
  round-Placed next is_cancelled s t all fresh e i =
      let (s', stepped, dispatched) = >>=-eq-some (on_next env next s) _ e in
      subst (Placed i) (some_inj dispatched)
        (try_dispatch-Placed is_cancelled s' (on_next-Placed next s all fresh stepped) i)

  pub new-Placed : (max_concurrent : ℕ) (disk : W) → AllPlaced (new max_concurrent disk)
  unfolding new
  new-Placed max_concurrent disk i = ground (arith, lookup-nil {V = Job} i)

  -- In every state that rounds with fresh ids lead to from the start, an id stands at most once in
  -- `ready`, and only if its job is `Queued`; and it has exactly one worker if its job is `Running`,
  -- `Pausing` or `Cancelling`, and none otherwise.
  pub Reach-Placed :
      (max_concurrent : ℕ) (disk : W) {s : Scheduler W}
      → Reach env (new max_concurrent disk) s
      → (i : ℕ)
      → (count i s.ready ≤ queued_at (lookup i s.jobs))
        × (tally (worker_of i) s.workers ≡ active_at (lookup i s.jobs))
  Reach-Placed max_concurrent disk r i =
      let p = Reach-induction env AllPlaced round-Placed (new-Placed max_concurrent disk) r i in
      (p.waits, p.works)
