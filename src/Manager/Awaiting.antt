-- ===== src/Manager/Awaiting.antt =====
-- manager.rs and download.rs: awaiting a download that `enqueue` has returned.
use download_manager.Base.{
  ℕ, ◌+◌, ◌≡◌, refl, sym, ap, ◌∙◌, bit, ◌==◌, Bool, true, false, Option, none, some, [], ◌∷◌, ◌++◌,
  tally, arith, inl, inr, Option-cases, if◌then◌else◌,
}
use download_manager.Error.{Result, ok}
use download_manager.Io.{ok_inj}
use download_manager.Events.Progress.{Float}
use download_manager.Request.{Request}
use download_manager.Job.{
  WorkerResult, DownloadResult, Log, broadcast, acknowledge, deliver, cancel_stop, close_commands,
}
use download_manager.Scheduler.State.{Env, Scheduler, SchedulerCmd}
use download_manager.Scheduler.State
use download_manager.Scheduler.Loop.{
  stop, command, command_closed, worker, retry, run, returned, Outcome,
}
use download_manager.Scheduler.Ledger.{paid}
use download_manager.Scheduler.Ledger.Rounds.{asked}
use download_manager.Scheduler.Running.{Rounds, ends, asked_before, Sound, run-Settles}
use download_manager.Download.{Download, poll, received}
use download_manager.Download as Handle
use download_manager.Manager.{DownloadManager, Names, TrySend, taken, full, closed, enqueue}

-- What a channel holds: the earliest result that was sent on it.
abbrev pub arrived : ℕ → Log → Option (Result DownloadResult)
arrived r [] = none
arrived r (deliver result_tx result ∷ log) = elim (arrived r log) [
  | some earlier ↦ some earlier
  | none ↦ if result_tx == r then some result else none
]
arrived r (_ ∷ log) = arrived r log

abbrev no_ack : ℕ → ℕ
no_ack a = 0

abbrev pub on_channel : ℕ → ℕ → ℕ
on_channel r result_tx = bit (result_tx == r)

none-arrived :
    (r : ℕ) (log : Log) → arrived r log ≡ none → tally (paid no_ack (on_channel r)) log ≡ 0
none-arrived r [] e = refl
none-arrived r (deliver result_tx result ∷ log) e = elim (Option-cases (arrived r log)) [
  | inr (earlier, found) ↦ let impossible = rw found at e in cc
  | inl nothing ↦ let sent = rw nothing at e in ground (arith, none-arrived r log nothing)
]
none-arrived r (broadcast event ∷ log) e = omega (arith, none-arrived r log e)
none-arrived r (acknowledge a result ∷ log) e = omega (arith, none-arrived r log e)
none-arrived r (cancel_stop s ∷ log) e = omega (arith, none-arrived r log e)
none-arrived r (close_commands ∷ log) e = omega (arith, none-arrived r log e)

one-arrived :
    (r : ℕ) (log : Log)
    → tally (paid no_ack (on_channel r)) log ≡ 1
    → (result : Result DownloadResult) × (arrived r log ≡ some result)
one-arrived r log one = elim (Option-cases (arrived r log)) [
  | inl nothing ↦ absurd (let empty = none-arrived r log nothing in omega arith)
  | inr found ↦ found
]

-- Rounds in front of one that does not end the loop.
asked_before-append :
    (ack res : ℕ → ℕ) (before after : Rounds)
    → ends before ≡ false
    → asked_before ack res (before ++ after)
      ≡ asked_before ack res before + asked_before ack res after
asked_before-append ack res [] after e = omega arith
asked_before-append ack res ((stop, c) ∷ before) after e = cc
asked_before-append ack res ((command_closed, c) ∷ before) after e = cc
asked_before-append ack res ((command cmd, c) ∷ before) after e =
    omega (arith, asked_before-append ack res before after e)
asked_before-append ack res ((worker place result, c) ∷ before) after e =
    omega (arith, asked_before-append ack res before after e)
asked_before-append ack res ((retry place, c) ∷ before) after e =
    omega (arith, asked_before-append ack res before after e)

ends-append : (before after : Rounds) → ends before ≡ false → ends (before ++ after) ≡ ends after
ends-append [] after e = refl
ends-append ((stop, c) ∷ before) after e = cc
ends-append ((command_closed, c) ∷ before) after e = cc
ends-append ((command cmd, c) ∷ before) after e = ends-append before after e
ends-append ((worker place result, c) ∷ before) after e = ends-append before after e
ends-append ((retry place, c) ∷ before) after e = ends-append before after e

-- `run` has returned, one result was sent on the channel, and awaiting it gives that result.
abbrev pub Arrives : {W : Type 0} → (r : ℕ) → Outcome W → Type 0
Arrives {W} r outcome =
    (t : Scheduler W) × (result : Result DownloadResult) × (outcome ≡ returned t)
    × (tally (paid no_ack (on_channel r)) t.log ≡ 1)
    × (arrived r t.log ≡ some result)
    × (poll (some (arrived r t.log)) ≡ some result)

run-Arrives :
    {W : Type 0} (env : Env W) (answers : ℕ → ℕ × Result WorkerResult) (max_concurrent : ℕ)
    (disk : W) (r : ℕ) (rounds : Rounds)
    → Sound env rounds (State.new max_concurrent disk)
    → ends rounds ≡ true
    → asked_before no_ack (on_channel r) rounds ≡ 1
    → Arrives r (run env answers rounds (State.new max_concurrent disk))
unfolding poll
run-Arrives env answers max_concurrent disk r rounds sound ended once =
    let (t, settled, _, all_paid) =
      run-Settles env answers no_ack (on_channel r) max_concurrent disk rounds sound ended in
    let one = all_paid ∙ once in
    let (result, found) = one-arrived r t.log one in
    (t, result, settled, one, found, ap (λ a. some (received a)) found)

module _ {F C S I : Type 0} (float : Float F) (now : ℕ) (manager : DownloadManager C S I)
    (names : Names) (request : Request) where
  handle-result :
      (sent : TrySend) {h : Download}
      → (enqueue float now manager names request sent).handle ≡ ok h
      → h.result ≡ names.result
  unfolding enqueue Handle.new
  handle-result taken e = sym (ap (λ (d : Download). d.result) (ok_inj e))
  handle-result full e = cc
  handle-result closed e = cc

  enqueue-asks :
      (sent : TrySend) (r : ℕ)
      → r ≡ names.result
      → asked no_ack (on_channel r) (command (enqueue float now manager names request sent).command)
        ≡ 1
  unfolding enqueue
  enqueue-asks sent r same = ground arith

  -- If `enqueue` returns a handle, its command is among the rounds before the end, no other command
  -- before the end has the handle's channel of results, ids are fresh, and no request asks for more
  -- than 64 retries, then `run` returns, exactly one result has been sent on that channel, and awaiting
  -- the handle gives it, so never that the manager has gone.
  pub enqueue-Arrives :
      {W : Type 0} (env : Env W) (answers : ℕ → ℕ × Result WorkerResult) (max_concurrent : ℕ)
      (disk : W) (before after : Rounds) (is_cancelled : ℕ → Bool) (sent : TrySend) {h : Download}
      → (enqueue float now manager names request sent).handle ≡ ok h
      → let rounds =
          before
          ++ (command (enqueue float now manager names request sent).command, is_cancelled)
            ∷ after in
        Sound env rounds (State.new max_concurrent disk)
        → ends before ≡ false
        → ends after ≡ true
        → asked_before no_ack (on_channel h.result) before ≡ 0
        → asked_before no_ack (on_channel h.result) after ≡ 0
        → Arrives h.result (
            run env answers
              (before
                ++ (command (enqueue float now manager names request sent).command, is_cancelled)
                  ∷ after)
              (State.new max_concurrent disk))
  enqueue-Arrives env answers max_concurrent disk before after is_cancelled sent {h} e sound goes_on
        ended fresh_before fresh_after =
      let res = on_channel h.result in
      let cmd = (enqueue float now manager names request sent).command in
      let rest = (command cmd, is_cancelled) ∷ after in
      let once = enqueue-asks sent h.result (handle-result sent e) in
      run-Arrives env answers max_concurrent disk h.result (before ++ rest) sound
        (ends-append before rest goes_on ∙ ended)
        (omega (
          arith,
          asked_before-append no_ack res before rest goes_on,
          fresh_before,
          fresh_after,
          once,
        ))
