-- ===== src/Scheduler/Transition.antt =====
-- scheduler.rs: `transition_job`, an arm to a function. A `none` is a panic of the scheduler.
use download_manager.Base.{
  ℕ, ◌+◌, Bool, false, Option, none, some, [], ◌∷◌, ◌++◌, leb, if◌then◌else◌, u32, lookup, insert,
  erase, without, ◌==◌,
}
use Prim.Native.String.{◌++◌ as append}
use download_manager.Error.{Error, Result, ok, err, is_retryable, unknown, invalid_request}
use download_manager.Events
use download_manager.Job.{
  Job, JobState, JobEvent, queued, running, retrying, pausing, paused, cancelling, WorkerResult,
  finished, stopped, acknowledge, cancel_stop,
}
use download_manager.Job
use download_manager.Job.Methods
use download_manager.Job.Methods.{notify, finalize}
use download_manager.Scheduler.Backoff.{next_delay, backoff_strategy}
use download_manager.Scheduler.State.{Env, Scheduler, emit, send, cancel_job}

abbrev pub is_retrying : JobState → ℕ → Bool
is_retrying (retrying current) attempt = current == attempt
is_retrying _ attempt = false

module _ {W : Type 0} where
  abbrev pub put : ℕ → Job → Scheduler W → Scheduler W
  put id job s = record s { jobs = insert id job s.jobs }

  -- `JobEvent::Dispatch`.
  unfoldable pub on_dispatch : ℕ → Scheduler W → Scheduler W
  on_dispatch id s = elim (lookup id s.jobs) [
    | none ↦ s
    | some job ↦ elim job.state [
      | queued ↦
          let stop = s.next_token in
          let s' = record (put id (record job { state = running stop }) s) {
            next_token = stop + 1;
          } in
          let started = emit id Events.started s' in
          record started {
            workers =
                started.workers
                ++ record {
                  id = id;
                  request = job.request;
                  progress_tx = job.progress_tx;
                  stop = stop;
                }
                  ∷ [];
          }
      | _ ↦ s
    ]
  ]

  abbrev requeue : ℕ → Job → Scheduler W → Scheduler W
  requeue id job s =
      emit id Events.queued
        (record (put id (record job { state = queued }) s) { ready = s.ready ++ id ∷ [] })

  -- `JobEvent::RetryElapsed`.
  unfoldable pub on_retry_elapsed : ℕ → ℕ → Scheduler W → Scheduler W
  on_retry_elapsed id attempt s = elim (lookup id s.jobs) [
    | none ↦ s
    | some job ↦ if is_retrying job.state attempt then requeue id job s else s
  ]

module _ {W : Type 0} (env : Env W) where
  abbrev unknown_download : ℕ → Error
  unknown_download id = unknown (append "unknown download " (env.id_text id))

  abbrev pub pause_job : ℕ → Job → Scheduler W → Scheduler W
  pause_job id job s =
      let (job', log') = Methods.pause job s.log in record (put id job' s) { log = log' }

  abbrev pause_in : JobState → ℕ → ℕ → Job → Scheduler W → Scheduler W
  pause_in queued id ack job s =
      send (acknowledge ack (ok tt)) (pause_job id job (record s { ready = without id s.ready }))
  pause_in (retrying _) id ack job s = send (acknowledge ack (ok tt)) (pause_job id job s)
  pause_in (running stop) id ack job s =
      emit id Events.pause_started
        (put id (record job { state = pausing (ack ∷ []) }) (send (cancel_stop stop) s))
  pause_in (pausing waiters) id ack job s =
      put id (record job { state = pausing (waiters ++ ack ∷ []) }) s
  pause_in paused id ack job s = send (acknowledge ack (ok tt)) s
  pause_in cancelling id ack job s =
      send
        (acknowledge ack (err (invalid_request "download cannot be paused in its current state"))) s

  -- `JobEvent::Pause`.
  unfoldable pub on_pause : ℕ → ℕ → Scheduler W → Scheduler W
  on_pause id ack s = elim (lookup id s.jobs) [
    | none ↦ send (acknowledge ack (err (unknown_download id))) s
    | some job ↦ pause_in job.state id ack job s
  ]

  abbrev resume_in : JobState → ℕ → ℕ → Job → Scheduler W → Scheduler W
  resume_in paused id ack job s = send (acknowledge ack (ok tt)) (requeue id job s)
  resume_in queued id ack job s = send (acknowledge ack (ok tt)) s
  resume_in (running _) id ack job s = send (acknowledge ack (ok tt)) s
  resume_in (retrying _) id ack job s = send (acknowledge ack (ok tt)) s
  resume_in _ id ack job s =
      send
        (acknowledge ack (err (invalid_request "download cannot be resumed in its current state")))
        s

  -- `JobEvent::Resume`.
  unfoldable pub on_resume : ℕ → ℕ → Scheduler W → Scheduler W
  on_resume id ack s = elim (lookup id s.jobs) [
    | none ↦ send (acknowledge ack (err (unknown_download id))) s
    | some job ↦ resume_in job.state id ack job s
  ]

  abbrev start_cancelling : ℕ → Job → Scheduler W → Scheduler W
  start_cancelling id job s =
      emit id Events.cancellation_started (put id (record job { state = cancelling }) s)

  abbrev remove_cancelled : ℕ → Job → Scheduler W → Scheduler W
  remove_cancelled id job s =
      cancel_job env job (record s { ready = without id s.ready; jobs = erase id s.jobs })

  abbrev cancel_in : JobState → ℕ → Job → Scheduler W → Scheduler W
  cancel_in (running stop) id job s = start_cancelling id job (send (cancel_stop stop) s)
  cancel_in (pausing waiters) id job s =
      start_cancelling id job (record s { log = notify waiters (err Error.cancelled) s.log })
  cancel_in cancelling id job s = s
  cancel_in _ id job s = remove_cancelled id job s

  -- `JobEvent::Cancel`.
  unfoldable pub on_cancel : ℕ → Scheduler W → Scheduler W
  on_cancel id s = elim (lookup id s.jobs) [ none ↦ s | some job ↦ cancel_in job.state id job s ]

  abbrev pub finish : Job → Result Job.DownloadResult → Scheduler W → Scheduler W
  finish job result s = record s { log = finalize env.http job result s.log }

  -- The retry with its timer, unless the delay is no `Duration`.
  abbrev pub retry_after : Option ℕ → ℕ → Job → Scheduler W → Option (Scheduler W)
  retry_after none id job s = none
  retry_after (some delay) id job s =
      let (job', log') = Methods.retry job delay s.log in
      some (put id job' (record s { log = log'; delayed = s.delayed ++ (id, job'.attempt) ∷ [] }))

  -- The arms on the job's state and the worker's result, tried in the code's order.
  abbrev pub settle : JobState → Result WorkerResult → ℕ → Job → Scheduler W → Option (Scheduler W)
  settle _ (ok (finished result)) id job s = some (finish job (ok result) s)
  settle cancelling _ id job s = some (cancel_job env job s)
  settle (pausing _) (ok stopped) id job s = some (pause_job id job s)
  settle (pausing _) (err error) id job s =
      if is_retryable env.http error
      then if leb job.request.config.retries job.attempt
        then some (finish job (err error) s)
        else some (pause_job id (record job { attempt = u32 (job.attempt + 1) }) s)
      else some (finish job (err error) s)
  settle (running _) (ok stopped) id job s = some (cancel_job env job s)
  settle _ (err error) id job s =
      if is_retryable env.http error
      then if leb job.request.config.retries job.attempt
        then some (finish job (err error) s)
        else retry_after (next_delay backoff_strategy job.attempt) id job s
      else some (finish job (err error) s)
  settle _ _ id job s = some (finish job (err (unknown "invalid worker state transition")) s)

  -- `JobEvent::Worker`.
  unfoldable pub on_worker : ℕ → Result WorkerResult → Scheduler W → Option (Scheduler W)
  on_worker id result s = elim (lookup id s.jobs) [
    | none ↦ some s
    | some job ↦ settle job.state result id job (record s { jobs = erase id s.jobs })
  ]

  unfoldable pub transition_job : ℕ → JobEvent → Scheduler W → Option (Scheduler W)
  transition_job id JobEvent.dispatch s = some (on_dispatch id s)
  transition_job id (JobEvent.retry_elapsed attempt) s = some (on_retry_elapsed id attempt s)
  transition_job id (JobEvent.pause ack) s = some (on_pause id ack s)
  transition_job id (JobEvent.resume ack) s = some (on_resume id ack s)
  transition_job id JobEvent.cancel s = some (on_cancel id s)
  transition_job id (JobEvent.worker result) s = on_worker id result s
