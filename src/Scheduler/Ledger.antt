-- ===== src/Scheduler/Ledger.antt =====
-- scheduler.rs and scheduler/job.rs: what is owed to channels. `ack` and `res` weigh the channels of
-- acknowledgements and of results. A job owes its result and an answer to each of its waiters.
pub mod Transitions
pub mod Keys
pub mod Rounds
use download_manager.Base.{ℕ, ◌+◌, ◌≡◌, refl, Option, none, some, List, [], ◌∷◌, arith, tally}
use download_manager.Http.{StatusCode}
use download_manager.Error.{Result, ok}
use download_manager.Job.{
  Job, JobState, DownloadResult, pausing, Effect, Log, broadcast, acknowledge, deliver, cancel_stop,
  close_commands,
}
use download_manager.Job.Methods
use download_manager.Job.Methods.{waiters_of, notify, finalize}
use download_manager.Scheduler.State.{Scheduler}

module _ (ack res : ℕ → ℕ) where
  abbrev pub result_owed : Option ℕ → ℕ
  result_owed none = 0
  result_owed (some result_tx) = res result_tx

  abbrev pub held : Job → ℕ
  held job = result_owed job.result + tally ack (waiters_of job.state)

  abbrev pub paid : Effect → ℕ
  paid (acknowledge a _) = ack a
  paid (deliver r _) = res r
  paid _ = 0

  abbrev pub entry : ℕ × Job → ℕ
  entry (id, job) = held job

  -- What is owed and what has been paid.
  abbrev pub balance : {W : Type 0} → Scheduler W → ℕ
  balance s = tally entry s.jobs + tally paid s.log

  pub paid-notify :
      (waiters : List ℕ) (result : Result (Unit {0})) (log : Log)
      → tally paid (notify waiters result log) ≡ tally ack waiters + tally paid log
  unfolding notify
  paid-notify [] result log = omega arith
  paid-notify (w ∷ ws) result log =
      omega (arith, paid-notify ws result (acknowledge w result ∷ log))

  -- A final result pays all that the job owes.
  pub paid-finalize :
      (http : StatusCode) (job : Job) (result : Result DownloadResult) (log : Log)
      → tally paid (finalize http job result log) ≡ held job + tally paid log
  unfolding finalize
  paid-finalize http job result log =
      ground (arith, paid-notify (waiters_of job.state) (Methods.acknowledged result) log)

  -- A pause pays the waiters.
  pub paid-pause :
      (job : Job) (log : Log)
      → tally paid (Methods.pause job log).1 + held (Methods.pause job log).0
        ≡ held job + tally paid log
  unfolding Methods.pause
  paid-pause job log = ground (arith, paid-notify (waiters_of job.state) (ok tt) log)
