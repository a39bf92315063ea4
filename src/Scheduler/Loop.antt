-- ===== src/Scheduler/Loop.antt =====
-- scheduler.rs: commands, dispatching and the loop of `run`. What the loop waits for is chosen by the
-- environment: each round gets a `Next`, and a reading of the root token for each time that it is
-- asked. A worker or a timer is named by its place in its set; beyond the end, the last one is meant.
use download_manager.Base.{
  ℕ, zero, suc, ◌≡◌, refl, Bool, true, false, Option, none, some, List, [], ◌∷◌, ltb, length, keys,
  take_at,
}
use download_manager.Error.{Result}
use download_manager.Job.{Job, JobEvent, WorkerResult, queued, close_commands}
use download_manager.Request.{Request}
use download_manager.Scheduler.State.{
  Env, SchedulerCmd, enqueue, pause, resume, cancel, cancel_all, set_max_concurrent, Scheduler,
  schedule, send,
}
use download_manager.Scheduler.Transition.{on_dispatch, on_cancel, transition_job}

infixl 5 ◌>>=◌
abbrev pub ◌>>=◌ {ℓ κ} : {A : Type ℓ} {B : Type κ} → Option A → (A → Option B) → Option B
none >>= f = none
some a >>= f = f a

pub >>=-eq-some {ℓ κ} :
    {A : Type ℓ} {B : Type κ} (m : Option A) (f : A → Option B) {b : B}
    → (m >>= f) ≡ some b
    → (a : A) × (m ≡ some a) × (f a ≡ some b)
>>=-eq-some none f h = cc
>>=-eq-some (some a) f h = (a, refl, h)

-- One round of `run`: what `select_biased!` yields.
pub data Next : Type 0 where
  stop : Next
  command : SchedulerCmd → Next
  command_closed : Next
  worker : (place : ℕ) → Result WorkerResult → Next
  retry : (place : ℕ) → Next

module _ {W : Type 0} where
  -- The loop of `try_dispatch` for at most `fuel` rounds. `is_cancelled` answers for the round that
  -- leaves so much fuel.
  unfoldable pub dispatch_loop : ℕ → (ℕ → Bool) → Scheduler W → Scheduler W
  dispatch_loop zero is_cancelled s = s
  dispatch_loop (suc fuel) is_cancelled s = elim (ltb (length s.workers) s.max_concurrent) [
    | false ↦ s
    | true ↦ elim s.ready [
      | [] ↦ s
      | id ∷ rest ↦ elim (is_cancelled fuel) [
        | true ↦ record s { ready = rest }
        | false ↦ dispatch_loop fuel is_cancelled (on_dispatch id (record s { ready = rest }))
      ]
    ]
  ]

  -- Each round takes one id from `ready`, and none adds one.
  unfoldable pub try_dispatch : (ℕ → Bool) → Scheduler W → Scheduler W
  unfolding dispatch_loop
  try_dispatch is_cancelled s = dispatch_loop (length s.ready) is_cancelled s

module _ {W : Type 0} (env : Env W) where
  unfoldable pub cancel_each : List ℕ → Scheduler W → Scheduler W
  cancel_each [] s = s
  cancel_each (id ∷ ids) s = cancel_each ids (on_cancel env id s)

  abbrev pub new_job : ℕ → Request → ℕ → ℕ → Job
  new_job id request progress_tx result_tx = record {
    id = id;
    request = request;
    progress_tx = progress_tx;
    attempt = 0;
    result = some result_tx;
    state = queued;
  }

  unfoldable pub handle_cmd : SchedulerCmd → Scheduler W → Option (Scheduler W)
  unfolding cancel_each
  handle_cmd (enqueue id request progress_tx result_tx) s =
      some (schedule (new_job id request progress_tx result_tx) s)
  handle_cmd (pause id ack) s = transition_job env id (JobEvent.pause ack) s
  handle_cmd (resume id ack) s = transition_job env id (JobEvent.resume ack) s
  handle_cmd (cancel id) s = transition_job env id JobEvent.cancel s
  handle_cmd cancel_all s = some (record (cancel_each (keys s.jobs) s) { ready = []; delayed = [] })
  handle_cmd (set_max_concurrent max_concurrent) s =
      some (record s { max_concurrent = max_concurrent })

  -- What the loop does with what it waited for, short of leaving.
  unfoldable pub on_next : Next → Scheduler W → Option (Scheduler W)
  unfolding handle_cmd
  on_next (command cmd) s = handle_cmd cmd s
  on_next (worker place result) s = elim s.workers [
    | [] ↦ some s
    | first ∷ others ↦
        let (found, rest) = take_at place first others in
        transition_job env found.id (JobEvent.worker result) (record s { workers = rest })
  ]
  on_next (retry place) s = elim s.delayed [
    | [] ↦ some s
    | first ∷ others ↦
        let (found, rest) = take_at place first others in
        transition_job env found.0 (JobEvent.retry_elapsed found.1) (record s { delayed = rest })
  ]
  on_next _ s = some s

  -- A round that does not leave the loop.
  unfoldable pub round : Next → (ℕ → Bool) → Scheduler W → Option (Scheduler W)
  unfolding on_next try_dispatch
  round next is_cancelled s = do s' ← on_next next s; some (try_dispatch is_cancelled s')

  -- `while let Some((id, result)) = self.workers.next().await`, for at most `fuel` rounds.
  unfoldable pub drain : ℕ → (ℕ → ℕ × Result WorkerResult) → Scheduler W → Option (Scheduler W)
  unfolding on_next
  drain zero answers s = some s
  drain (suc fuel) answers s = elim s.workers [
    | [] ↦ some s
    | _ ∷ _ ↦ on_next (worker (answers fuel).0 (answers fuel).1) s >>= λ s'. drain fuel answers s'
  ]

  -- What follows the loop. No transition of a worker adds one.
  unfoldable pub shut_down : (ℕ → ℕ × Result WorkerResult) → Scheduler W → Option (Scheduler W)
  unfolding handle_cmd drain
  shut_down answers s = do
    s' ← handle_cmd cancel_all (send close_commands s)
    drain (length s'.workers) answers s'

pub data Outcome (W : Type 0) : Type 0 where
  waiting returned : Scheduler W → Outcome W
  panicked : Outcome W

abbrev pub or_panic : {W : Type 0} → Option (Scheduler W) → (Scheduler W → Outcome W) → Outcome W
or_panic none f = panicked
or_panic (some s) f = f s

-- `select_biased!` looks at the root token first: once that is cancelled, the loop stops, whatever else
-- is there.
abbrev pub waits : (cancel_root : Bool) → List (Next × (ℕ → Bool)) → List (Next × (ℕ → Bool))
waits true rounds = (stop, λ _. false) ∷ []
waits false rounds = rounds

module _ {W : Type 0} (env : Env W) (answers : ℕ → ℕ × Result WorkerResult) where
  -- `run`, as far as the rounds go. After the last one it waits.
  unfoldable pub run : List (Next × (ℕ → Bool)) → Scheduler W → Outcome W
  unfolding round shut_down
  run [] s = waiting s
  run ((stop, _) ∷ rounds) s = or_panic (shut_down env answers s) returned
  run ((command_closed, _) ∷ rounds) s = or_panic (shut_down env answers s) returned
  run ((next, is_cancelled) ∷ rounds) s = or_panic (round env next is_cancelled s) (run rounds)
