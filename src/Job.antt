-- ===== src/Job.antt =====
-- scheduler/job.rs: a download in the scheduler's table. Channels and cancellation tokens are names
-- (numbers); what the code hands to them is written to a log, the newest entry first.
pub mod Methods
use download_manager.Base.{ℕ, Option, List}
use download_manager.Storage.Paths.{FilePath}
use download_manager.Error.{Result}
use download_manager.Events.{Event}
use download_manager.Request.{Request}

-- download.rs
pub record DownloadResult : Type 0 where
  pub path : FilePath
  pub bytes_downloaded : ℕ

-- worker.rs
pub data WorkerResult : Type 0 where
  finished : DownloadResult → WorkerResult
  stopped : WorkerResult

pub data JobState : Type 0 where
  queued : JobState
  running : (stop : ℕ) → JobState
  retrying : (attempt : ℕ) → JobState
  pausing : (waiters : List ℕ) → JobState
  paused cancelling : JobState

pub data JobEvent : Type 0 where
  dispatch : JobEvent
  retry_elapsed : ℕ → JobEvent
  pause resume : (ack : ℕ) → JobEvent
  cancel : JobEvent
  worker : Result WorkerResult → JobEvent

pub record Job : Type 0 where
  pub id : ℕ
  pub request : Request
  pub progress_tx : ℕ
  pub attempt : ℕ
  pub result : Option ℕ
  pub state : JobState

-- A call that leaves the scheduler, with the channel or token that it goes to.
pub data Effect : Type 0 where
  broadcast : Event → Effect
  acknowledge : (ack : ℕ) → Result (Unit {0}) → Effect
  deliver : (result_tx : ℕ) → Result DownloadResult → Effect
  cancel_stop : (stop : ℕ) → Effect
  close_commands : Effect

abbrev pub Log : Type 0
Log = List Effect
