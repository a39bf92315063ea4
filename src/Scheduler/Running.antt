-- ===== src/Scheduler/Running.antt =====
-- scheduler.rs: all of `run`, from the first round to its end.
use download_manager.Base.{
  ℕ, ◌+◌, ◌≡◌, refl, sym, ap, subst, Bool, true, false, some, List, [], ◌∷◌, ◌++◌, tally, arith,
}
use download_manager.Error.{Result}
use download_manager.Job.{WorkerResult}
use download_manager.Scheduler.State.{Env, Scheduler, new}
use download_manager.Scheduler.Loop.{
  Next, stop, command, command_closed, worker, retry, round, shut_down, Outcome, returned, or_panic,
  run,
}
use download_manager.Scheduler.Reach.{Fresh, Reach, here, step}
use download_manager.Scheduler.Ledger.{paid}
use download_manager.Scheduler.Ledger.Rounds.{asked, asked_in}
use download_manager.Scheduler.Drain.{Empty, Reach-shut_down}
use download_manager.Scheduler.Retries.Rounds.{Within, AllWithin}
use download_manager.Scheduler.Retries.Panics.{round_returns}

-- What the loop waits for, round by round.
abbrev pub Rounds : Type 0
Rounds = List (Next × (ℕ → Bool))

-- A stop request or the end of the command channel is among it.
abbrev pub ends : Rounds → Bool
ends [] = false
ends ((stop, _) ∷ rounds) = true
ends ((command_closed, _) ∷ rounds) = true
ends (_ ∷ rounds) = ends rounds

-- What the commands before it ask.
abbrev pub asked_before : (ack res : ℕ → ℕ) → Rounds → ℕ
asked_before ack res [] = 0
asked_before ack res ((stop, _) ∷ rounds) = 0
asked_before ack res ((command_closed, _) ∷ rounds) = 0
asked_before ack res ((next, _) ∷ rounds) = asked ack res next + asked_before ack res rounds

-- `run` has returned, nothing is left of the downloads, and so much has been paid.
abbrev pub Settles : {W : Type 0} → (ack res : ℕ → ℕ) (n : ℕ) → Outcome W → Type 0
Settles {W} ack res n outcome =
    (t : Scheduler W) × (outcome ≡ returned t) × Empty t × (tally (paid ack res) t.log ≡ n)

-- A stop that comes in the end ends the loop, if nothing has before, and asks for nothing.
pub ends-stop : (rounds : Rounds) (c : ℕ → Bool) → ends (rounds ++ (stop, c) ∷ []) ≡ true
ends-stop [] c = refl
ends-stop ((stop, _) ∷ rounds) c = refl
ends-stop ((command_closed, _) ∷ rounds) c = refl
ends-stop ((command cmd, _) ∷ rounds) c = ends-stop rounds c
ends-stop ((worker place result, _) ∷ rounds) c = ends-stop rounds c
ends-stop ((retry place, _) ∷ rounds) c = ends-stop rounds c

pub asked_before-stop :
    (ack res : ℕ → ℕ) (rounds : Rounds) (c : ℕ → Bool)
    → asked_before ack res (rounds ++ (stop, c) ∷ []) ≡ asked_before ack res rounds
asked_before-stop ack res [] c = refl
asked_before-stop ack res ((stop, _) ∷ rounds) c = refl
asked_before-stop ack res ((command_closed, _) ∷ rounds) c = refl
asked_before-stop ack res ((command cmd, _) ∷ rounds) c =
    ap (λ n. asked ack res (command cmd) + n) (asked_before-stop ack res rounds c)
asked_before-stop ack res ((worker place result, _) ∷ rounds) c =
    omega (arith, asked_before-stop ack res rounds c)
asked_before-stop ack res ((retry place, _) ∷ rounds) c =
    omega (arith, asked_before-stop ack res rounds c)

module _ {W : Type 0} (env : Env W) where
  -- Every id is fresh when it comes, and no request asks for more than 64 retries.
  abbrev pub Sound : Rounds → Scheduler W → Type 0
  Sound [] s = Unit {0}
  Sound ((next, is_cancelled) ∷ rounds) s =
      Fresh next s
      × Within 64 next
      × ((t : Scheduler W) → round env next is_cancelled s ≡ some t → Sound rounds t)

  pub Sound-stop :
      (rounds : Rounds) (c : ℕ → Bool) (s : Scheduler W)
      → Sound rounds s
      → Sound (rounds ++ (stop, c) ∷ []) s
  Sound-stop [] c s sound = (tt, tt, λ t e. tt)
  Sound-stop ((next, is_cancelled) ∷ rounds) c s (fresh, few, later) =
      (fresh, few, λ t e. Sound-stop rounds c t (later t e))

  module _ (answers : ℕ → ℕ × Result WorkerResult) (ack res : ℕ → ℕ) (max_concurrent : ℕ)
      (disk : W) where
    leaves :
        {s : Scheduler W} (r : Reach env (new max_concurrent disk) s)
        → Settles ack res (asked_in ack res env r) (or_panic (shut_down env answers s) returned)
    leaves r =
        let (t, ended, empty, all_paid) =
          Reach-shut_down env answers ack res max_concurrent disk r in
        (t, ap (λ o. or_panic o returned) ended, empty, all_paid)

    -- A round that does not leave the loop gives a state, from which `run` goes on.
    goes_on :
        (next : Next) (is_cancelled : ℕ → Bool) (rounds : Rounds) {s : Scheduler W}
        (r : Reach env (new max_concurrent disk) s)
        → AllWithin 64 r
        → (fresh : Fresh next s)
        → ((t : Scheduler W) (e : round env next is_cancelled s ≡ some t)
            → let after : Reach env (new max_concurrent disk) t =
                step next is_cancelled r fresh e in
              Settles ack res
                (asked_in ack res env after + asked_before ack res rounds)
                (run env answers rounds t))
        → Settles ack res
            (asked_in ack res env r + (asked ack res next + asked_before ack res rounds))
            (or_panic (round env next is_cancelled s) (run env answers rounds))
    goes_on next is_cancelled rounds {s} r w fresh settles =
        let (t, stepped) = round_returns env max_concurrent disk r w next is_cancelled in
        let before = asked_in ack res env r in
        let later = asked_before ack res rounds in
        let n = before + asked ack res next + later in
        subst
          (λ o.
            Settles ack res (before + (asked ack res next + later))
              (or_panic o (run env answers rounds)))
          (sym stepped)
          (subst (λ m. Settles ack res m (run env answers rounds t)) {x = n} (omega arith)
            (settles t stepped))

    Reach-run :
        (rounds : Rounds) {s : Scheduler W} (r : Reach env (new max_concurrent disk) s)
        → AllWithin 64 r
        → Sound rounds s
        → ends rounds ≡ true
        → Settles ack res
            (asked_in ack res env r + asked_before ack res rounds)
            (run env answers rounds s)
    unfolding run
    Reach-run [] r w sound e = cc
    Reach-run ((stop, c) ∷ rounds) {s} r w sound e =
        subst (λ n. Settles ack res n (or_panic (shut_down env answers s) returned)) (omega arith)
          (leaves r)
    Reach-run ((command_closed, c) ∷ rounds) {s} r w sound e =
        subst (λ n. Settles ack res n (or_panic (shut_down env answers s) returned)) (omega arith)
          (leaves r)
    Reach-run ((command cmd, c) ∷ rounds) r w (fresh, few, later) e =
        goes_on (command cmd) c rounds r w fresh λ t stepped.
          Reach-run rounds (step (command cmd) c r fresh stepped) (few, w) (later t stepped) e
    Reach-run ((worker place result, c) ∷ rounds) r w (fresh, few, later) e =
        goes_on (worker place result) c rounds r w fresh λ t stepped.
          Reach-run rounds (step (worker place result) c r fresh stepped) (few, w) (later t stepped)
            e
    Reach-run ((retry place, c) ∷ rounds) r w (fresh, few, later) e =
        goes_on (retry place) c rounds r w fresh λ t stepped.
          Reach-run rounds (step (retry place) c r fresh stepped) (few, w) (later t stepped) e

    -- From the start, if a stop request or the end of the command channel comes at some time, ids are
    -- fresh, and no request asks for more than 64 retries, then `run` returns without a panic; no job,
    -- worker, ready id or timer is left, and the results and acknowledgements sent weigh, for any
    -- weighing of the channels, exactly what the commands before the end have asked.
    pub run-Settles :
        (rounds : Rounds)
        → Sound rounds (new max_concurrent disk)
        → ends rounds ≡ true
        → Settles ack res
            (asked_before ack res rounds)
            (run env answers rounds (new max_concurrent disk))
    run-Settles rounds sound e =
        subst (λ n. Settles ack res n (run env answers rounds (new max_concurrent disk)))
          {x = 0 + asked_before ack res rounds} (omega arith) (Reach-run rounds here tt sound e)
