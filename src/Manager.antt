-- ===== src/Manager.antt =====
-- manager.rs: the manager. Whether the channel takes a command is an argument; ids and channels are
-- numbers, and those that a call makes are its argument too.
pub mod Life
pub mod Awaiting
use download_manager.Base.{ℕ, String, Bool, Option, none, some}
use download_manager.Error.{Result, ok, err, io, command_queue_full, command_channel_closed}
use download_manager.Request.{Request}
use download_manager.Request.Builder.{build, builder}
use download_manager.Storage.Paths.{FilePath}
use download_manager.Scheduler.State.{SchedulerCmd}
use download_manager.Scheduler.State
use download_manager.Scheduler.State.{Scheduler}
use download_manager.Scheduler.Loop.{Outcome, waiting, returned, panicked}
use download_manager.Storage.Manifest.{is_some}
use download_manager.Storage.FileSystem.{IoResult, done, failed}
use download_manager.Events.Progress.{Float, Progress}
use download_manager.Events.Progress
use download_manager.Context.{Broadcasts, Context}
use download_manager.Context
use download_manager.Download.{Download, after_send}
use download_manager.Download as Handle

-- `try_send` of `async_channel`.
pub data TrySend : Type 0 where
  taken full closed : TrySend

-- `From<TrySendError>`.
abbrev pub after_try_send : {A : Type 0} → TrySend → A → Result A
after_try_send taken a = ok a
after_try_send full a = err command_queue_full
after_try_send closed a = err command_channel_closed

-- What `enqueue` sends: the command, and the progress that the new channel holds at first; and what
-- it returns.
pub record Enqueued (F : Type 0) : Type 0 where
  pub command : SchedulerCmd
  pub first_progress : Progress F
  pub handle : Result Download

-- The manager's two channels; the third is in its context.
pub record DownloadManager (C S I : Type 0) : Type 0 where
  pub scheduler_tx : ℕ
  pub done_rx : ℕ
  pub ctx : Context C S I

-- The id and the channels that a call makes.
pub record Names : Type 0 where
  pub id : ℕ
  pub events : ℕ
  pub progress : ℕ
  pub result : ℕ

module _ {F C S I : Type 0} (float : Float F) (now : ℕ) (manager : DownloadManager C S I)
    (names : Names) where
  unfoldable pub enqueue : Request → TrySend → Enqueued F
  unfolding Progress.new Handle.new
  enqueue request sent = record {
    command = State.enqueue names.id request names.progress names.result;
    first_progress = Progress.new float now 0 none;
    handle =
        after_try_send sent
          (Handle.new names.id names.events names.progress names.result manager.scheduler_tx);
  }

  abbrev pub enqueue_built : Result Request → TrySend → Result (Enqueued F)
  enqueue_built (ok request) sent = ok (enqueue request sent)
  enqueue_built (err error) sent = err error

  unfoldable pub download : String → FilePath → TrySend → Result (Enqueued F)
  unfolding build builder enqueue
  download url destination = enqueue_built (build (builder url destination))

-- The result of the send is only logged.
unfoldable pub cancel_all : SchedulerCmd
cancel_all = State.cancel_all

unfoldable pub set_max_concurrent : ℕ → Bool → SchedulerCmd × Result (Unit {0})
set_max_concurrent max_concurrent sent =
    (State.set_max_concurrent max_concurrent, after_send sent (ok tt))

pub record DownloadManagerConfig : Type 0 where
  pub max_concurrent : ℕ

unfoldable pub default : DownloadManagerConfig
default = record { max_concurrent = 3 }

module _ {C S R I : Type 0} (crate : Broadcasts S R I) where
  -- The manager with the scheduler that its thread runs, unless the thread cannot be started.
  unfoldable pub new :
      {W : Type 0}
      → C
      → DownloadManagerConfig
      → (cmd_tx done_rx : ℕ) → (spawned : IoResult (Unit {0})) → W
      → Result (DownloadManager C S I × Scheduler W)
  unfolding Context.new State.new
  new client config cmd_tx done_rx spawned disk = elim spawned [
    | failed error ↦ err (io error)
    | done _ ↦
        let ctx = Context.new crate client in
        ok (
          record { scheduler_tx = cmd_tx; done_rx = done_rx; ctx = ctx },
          State.new config.max_concurrent disk,
        )
  ]

  -- A receiver of all events.
  unfoldable pub events : DownloadManager C S I → R
  events manager = crate.new_receiver manager.ctx.events

-- What the thread sends when `run` has returned: nothing while it runs, and the sender is gone after
-- a panic.
abbrev pub done_message : {W : Type 0} → Outcome W → Option (Option (Unit {0}))
done_message (waiting _) = none
done_message (returned _) = some (some tt)
done_message panicked = some none

module _ {C S I : Type 0} where
  unfoldable pub drop : DownloadManager C S I → DownloadManager C S I
  unfolding Context.cancel
  drop manager = record manager { ctx = Context.cancel manager.ctx }

  -- The root token is cancelled, and then the end of the thread is awaited, whatever it is: `thread`
  -- says how `run` ends if the context, which the thread shares, is so from now on. The result is
  -- whether the wait ends.
  unfoldable pub shutdown :
      {W : Type 0}
      → DownloadManager C S I
      → (thread : Context C S I → Outcome W) → DownloadManager C S I × Bool
  unfolding Context.cancel
  shutdown manager thread =
      let ctx = Context.cancel manager.ctx in
      (record manager { ctx = ctx }, is_some (done_message (thread ctx)))
