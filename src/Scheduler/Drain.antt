-- ===== src/Scheduler/Drain.antt =====
-- scheduler.rs: the end of `run`, which waits for the workers of the cancelled jobs.
use download_manager.Base.{
  ℕ, zero, suc, ◌≤◌, ◌≡◌, Option, none, some, List, [], ◌∷◌, arith, length, length-take_at, tally,
  tally-take_at, take_at, keys, lookup, nil_of_lookup, nil_of_length, List-cases, inl, inr, refl,
  ap, sym, ◌∙◌,
}
use download_manager.Error.{Result}
use download_manager.Job.{Job, WorkerResult, close_commands}
use download_manager.Scheduler.State.{Env, Scheduler, Worker, new, send}
use download_manager.Scheduler.Transition.{transition_job}
use download_manager.Scheduler.Loop.{
  ◌>>=◌, worker, on_next, drain, shut_down, handle_cmd, cancel_each,
}
use download_manager.Scheduler.Placed.{active_at, worker_of}
use download_manager.Scheduler.Rounds.{AllPlaced, cancel_each-Placed, round-Placed, new-Placed}
use download_manager.Scheduler.Reach.{Reach, Reach-induction}
use download_manager.Scheduler.Ledger.{paid, entry}
use download_manager.Scheduler.Ledger.Rounds.{
  Accounts, asked_in, Reach-Accounts, worker_done-Accounts, cancel_each-Accounts,
}
use download_manager.Scheduler.Shutdown.{live_at, on_worker_cancelling, cancel_each_all}

-- Every job is being cancelled and has its worker; nothing is queued or delayed.
pub record Ending {W : Type 0} (s : Scheduler W) : Type 0 where
  pub ends : (i : ℕ) → live_at (lookup i s.jobs) ≡ 0
  pub works : (i : ℕ) → tally (worker_of i) s.workers ≡ active_at (lookup i s.jobs)
  pub no_ready : s.ready ≡ []
  pub no_delayed : s.delayed ≡ []

gone_of : (slot : Option Job) → live_at slot ≡ 0 → active_at slot ≡ 0 → slot ≡ none
gone_of slot h k = ground arith

pub active_at-le-one : (slot : Option Job) → active_at slot ≤ 1
active_at-le-one slot = ground arith

module _ {W : Type 0} (env : Env W) where
  -- One more worker comes back: its job is over.
  worker_done-Ending :
      (place : ℕ) (result : Result WorkerResult) (s : Scheduler W) (first : Worker)
      (others : List Worker)
      → s.workers ≡ first ∷ others
      → Ending s
      → (t : Scheduler W) × (on_next env (worker place result) s ≡ some t)
        × (length t.workers ≡ length others)
        × Ending t
  unfolding on_next transition_job
  worker_done-Ending place result s first others busy h =
      let left = (take_at place first others).1 in
      let id = (take_at place first others).0.id in
      let (t, stepped, (workers, ready, delayed, jobs)) =
        on_worker_cancelling env id result (record s { workers = left }) (h.ends id) in
      (
        t,
        rw (busy, on_next) stepped,
        ap length workers ∙ length-take_at place first others,
        record {
          ends = λ i. ground (arith, jobs i, h.ends i);
          works = λ i. ground (
            arith,
            jobs i,
            h.works i,
            ap (tally (worker_of i)) workers,
            ap (tally (worker_of i)) busy,
            active_at-le-one (lookup i s.jobs),
            tally-take_at (worker_of i) place first others,
          );
          no_ready = ready ∙ h.no_ready;
          no_delayed = delayed ∙ h.no_delayed;
        },
      )

-- Nothing is left of the downloads.
pub record Empty {W : Type 0} (s : Scheduler W) : Type 0 where
  pub no_jobs : s.jobs ≡ []
  pub no_workers : s.workers ≡ []
  pub nothing_ready : s.ready ≡ []
  pub nothing_delayed : s.delayed ≡ []

module _ {W : Type 0} (env : Env W) where
  Ending-Empty : (s : Scheduler W) → s.workers ≡ [] → Ending s → Empty s
  Ending-Empty s idle h = record {
    no_jobs = nil_of_lookup s.jobs (λ i.
        gone_of (lookup i s.jobs) (h.ends i) (sym (h.works i) ∙ ap (tally (worker_of i)) idle));
    no_workers = idle;
    nothing_ready = h.no_ready;
    nothing_delayed = h.no_delayed;
  }

  module _ (answers : ℕ → ℕ × Result WorkerResult) (ack res : ℕ → ℕ) (n : ℕ) where
    -- As many rounds as there are workers are enough, and none of them panics.
    drain_total :
        (fuel : ℕ) (s : Scheduler W)
        → length s.workers ≤ fuel
        → Ending s
        → Accounts ack res n s
        → (t : Scheduler W) × (drain env fuel answers s ≡ some t) × Empty t × Accounts ack res n t
    unfolding drain
    drain_total zero s enough h a =
        (s, refl, Ending-Empty s (nil_of_length s.workers (omega arith)) h, a)
    drain_total (suc fuel) s enough h a = elim (List-cases s.workers) [
      | inl idle ↦ (s, ground arith, Ending-Empty s idle h, a)
      | inr (first, others, busy) ↦
          let (place, result) = answers fuel in
          let (s', stepped, fewer, h') =
            worker_done-Ending env place result s first others busy h in
          let (t, rest, empty, a') =
            drain_total fuel s' (omega (arith, fewer, ap length busy)) h'
              (worker_done-Accounts ack res env n place result s a stepped) in
          (t, rw (busy, drain) (ap (λ m. m >>= drain env fuel answers) stepped ∙ rest), empty, a')
    ]

    -- Leaving the loop never panics and leaves nothing: and then all that was asked has been paid.
    shut_down_total :
        (s : Scheduler W)
        → AllPlaced s
        → Accounts ack res n s
        → (t : Scheduler W) × (shut_down env answers s ≡ some t)
          × Empty t
          × (tally (paid ack res) t.log ≡ n)
    unfolding shut_down handle_cmd
    shut_down_total s all a =
        let closed : Scheduler W = send close_commands s in
        let c = cancel_each env (keys s.jobs) closed in
        let placed : AllPlaced c = λ i.
          cancel_each-Placed env i (keys s.jobs) closed
            (record { waits = (all i).waits; works = (all i).works }) in
        let b : Accounts ack res n c =
          cancel_each-Accounts ack res env n (keys s.jobs) closed
            (record { unique = a.unique; balanced = omega (arith, a.balanced) }) in
        let (t, drained, empty, a') =
          drain_total (length c.workers) (record c { ready = []; delayed = [] }) (omega arith)
            (record {
              ends = λ i. cancel_each_all env i closed;
              works = λ i. (placed i).works;
              no_ready = refl;
              no_delayed = refl;
            })
            (record { unique = b.unique; balanced = b.balanced }) in
        (t, drained, empty, omega (arith, a'.balanced, ap (tally (entry ack res)) empty.no_jobs))

  -- From every state that rounds with fresh ids lead to, what follows the loop returns, without a
  -- panic. Then no job, worker, queued id or timer is left, and, however the channels are weighed, the
  -- answers that were sent weigh what the rounds have asked: so each result channel has got one result
  -- for each download that came with it, and each acknowledgement channel one answer for each pause or
  -- resume that came with it.
  pub Reach-shut_down :
      (answers : ℕ → ℕ × Result WorkerResult) (ack res : ℕ → ℕ) (max_concurrent : ℕ) (disk : W)
      {s : Scheduler W} (r : Reach env (new max_concurrent disk) s)
      → (t : Scheduler W) × (shut_down env answers s ≡ some t)
        × Empty t
        × (tally (paid ack res) t.log ≡ asked_in ack res env r)
  Reach-shut_down answers ack res max_concurrent disk {s} r =
      shut_down_total answers ack res (asked_in ack res env r) s
        (Reach-induction env AllPlaced (round-Placed env) (new-Placed env max_concurrent disk) r)
        (Reach-Accounts ack res env max_concurrent disk r)
