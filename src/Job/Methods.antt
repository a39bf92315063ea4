-- ===== src/Job/Methods.antt =====
-- scheduler/job.rs: the methods of `Job`. Each takes the log and returns the new one.
use download_manager.Base.{ℕ, ◌+◌, ◌/◌, Option, none, some, List, [], ◌∷◌, u32, u64}
use download_manager.Http.{StatusCode}
use download_manager.Error.{Error, Result, ok, err, to_string}
use download_manager.Events
use download_manager.Events.{EventKind, completed, failed, retry_scheduled}
use download_manager.Job.{
  Job, JobState, pausing, paused, retrying, DownloadResult, broadcast, acknowledge, deliver, Log,
}

-- `waiters.drain(..).for_each(|waiter| waiter.try_send(result))`.
unfoldable pub notify : List ℕ → Result (Unit {0}) → Log → Log
notify [] result log = log
notify (waiter ∷ waiters) result log = notify waiters result (acknowledge waiter result ∷ log)

-- The waiters of a `Pausing` job, which the drain leaves empty.
abbrev pub waiters_of : JobState → List ℕ
waiters_of (pausing waiters) = waiters
waiters_of _ = []

abbrev pub drained : JobState → JobState
drained (pausing waiters) = pausing []
drained state = state

unfoldable pub resolve_pause_waiters : Job → Result (Unit {0}) → Log → Job × Log
resolve_pause_waiters job result log =
    (record job { state = drained job.state }, notify (waiters_of job.state) result log)

abbrev pub acknowledged : Result DownloadResult → Result (Unit {0})
acknowledged (ok _) = ok tt
acknowledged (err error) = err error

abbrev pub final_kind : StatusCode → Result DownloadResult → EventKind
final_kind http (ok _) = completed
final_kind http (err Error.cancelled) = Events.cancelled
final_kind http (err error) = failed (to_string http error)

abbrev pub deliver_to : Option ℕ → Result DownloadResult → Log → Log
deliver_to none result log = log
deliver_to (some result_tx) result log = deliver result_tx result ∷ log

unfoldable pub finalize : StatusCode → Job → Result DownloadResult → Log → Log
unfolding resolve_pause_waiters
finalize http job result log =
    let (job', log') = resolve_pause_waiters job (acknowledged result) log in
    deliver_to job'.result result
      (broadcast (record { id = job'.id; kind = final_kind http result }) ∷ log')

unfoldable pub pause : Job → Log → Job × Log
unfolding resolve_pause_waiters
pause job log =
    let (job', log') = resolve_pause_waiters job (ok tt) log in
    (
      record job' { state = paused },
      broadcast (record { id = job'.id; kind = Events.paused }) ∷ log',
    )

-- `delay` is in nanoseconds.
unfoldable pub retry : Job → ℕ → Log → Job × Log
retry job delay log =
    let attempt = u32 (job.attempt + 1) in
    (
      record job { attempt = attempt; state = retrying attempt },
      broadcast (record { id = job.id; kind = retry_scheduled attempt (u64 (delay / 1_000_000)) })
          ∷ log,
    )
