-- ===== src/Scheduler/State.antt =====
-- scheduler.rs: the scheduler's state and its commands. The disk, of type `W`, is part of the state,
-- since a cancelled job's files are removed by the scheduler itself.
use download_manager.Base.{ℕ, String, ◌++◌, List, [], ◌∷◌, insert}
use download_manager.Http.{StatusCode}
use download_manager.Storage.FileSystem.{FileSystem}
use download_manager.Storage.Discard.{discard_partial}
use download_manager.Error.{Result, ok, err}
use download_manager.Error
use download_manager.Events.{EventKind}
use download_manager.Events
use download_manager.Request.{Request}
use download_manager.Job.{Job, DownloadResult, Effect, Log, broadcast}
use download_manager.Job.Methods.{finalize}

-- What the scheduler calls and does not implement.
pub record Env (W : Type 0) : Type 0 where
  pub http : StatusCode
  pub fs : FileSystem W
  -- The text of an id.
  pub id_text : ℕ → String

pub data SchedulerCmd : Type 0 where
  enqueue : (id : ℕ) → Request → (progress_tx result_tx : ℕ) → SchedulerCmd
  pause resume : (id ack : ℕ) → SchedulerCmd
  cancel : (id : ℕ) → SchedulerCmd
  cancel_all : SchedulerCmd
  set_max_concurrent : (max_concurrent : ℕ) → SchedulerCmd

-- A running `WorkerFuture`: the arguments of `run`, and the id that comes back with its result.
pub record Worker : Type 0 where
  pub id : ℕ
  pub request : Request
  pub progress_tx : ℕ
  pub stop : ℕ

-- `delayed` holds an id and an attempt for each timer. `next_token` is the name of the next child
-- token; `log` is what was handed to channels and tokens, the newest first.
pub record Scheduler (W : Type 0) : Type 0 where
  pub max_concurrent : ℕ
  pub jobs : List (ℕ × Job)
  pub ready : List ℕ
  pub delayed : List (ℕ × ℕ)
  pub workers : List Worker
  pub next_token : ℕ
  pub disk : W
  pub log : Log

unfoldable pub new : {W : Type 0} → ℕ → W → Scheduler W
new max_concurrent disk = record {
  max_concurrent = max_concurrent;
  jobs = [];
  ready = [];
  delayed = [];
  workers = [];
  next_token = 0;
  disk = disk;
  log = [];
}

module _ {W : Type 0} where
  abbrev pub emit : ℕ → EventKind → Scheduler W → Scheduler W
  emit id kind s = record s { log = broadcast (record { id = id; kind = kind }) ∷ s.log }

  abbrev pub send : Effect → Scheduler W → Scheduler W
  send effect s = record s { log = effect ∷ s.log }

  unfoldable pub schedule : Job → Scheduler W → Scheduler W
  schedule job s =
      let s' = emit job.id Events.queued s in
      record s' { jobs = insert job.id job s'.jobs; ready = s'.ready ++ job.id ∷ [] }

abbrev pub cancellation : Result (Unit {0}) → Result DownloadResult
cancellation (ok _) = err Error.cancelled
cancellation (err error) = err error

module _ {W : Type 0} (env : Env W) where
  unfoldable pub cancel_job : Job → Scheduler W → Scheduler W
  cancel_job job s =
      let (result, disk') = discard_partial env.fs job.request.destination s.disk in
      record s { disk = disk'; log = finalize env.http job (cancellation result) s.log }
