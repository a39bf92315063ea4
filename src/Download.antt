-- ===== src/Download.antt =====
-- download.rs: the handle of a download. Each method gives the command that it sends and what it
-- returns; whether the channel takes the command, and what comes back, are its arguments.
pub mod Listening
use download_manager.Base.{ℕ, Bool, Option, none, some, List, [], ◌∷◌, ◌==◌, if◌then◌else◌}
use download_manager.Error.{Result, ok, err, cancelled, manager_shutdown, from_send}
use download_manager.Events.{Event}
use download_manager.Job.{DownloadResult}
use download_manager.Scheduler.State.{SchedulerCmd}
use download_manager.Scheduler.State

-- The handle: its id and the channels that it holds.
pub record Download : Type 0 where
  pub id : ℕ
  pub events : ℕ
  pub progress : ℕ
  pub result : ℕ
  pub cmd_tx : ℕ

unfoldable pub new : (id events progress result cmd_tx : ℕ) → Download
new id events progress result cmd_tx = record {
  id = id;
  events = events;
  progress = progress;
  result = result;
  cmd_tx = cmd_tx;
}

-- A clone has a receiver of events of its own, and shares the result.
unfoldable pub clone : (new_receiver : ℕ) → Download → Download
clone new_receiver download = record download { events = new_receiver }

-- A receiver whose sender has gone gives nothing.
abbrev pub received : {A : Type 0} → Option (Result A) → Result A
received none = err manager_shutdown
received (some result) = result

-- Awaiting the handle: the result's channel has nothing yet, has lost its sender, or has the result.
-- The future is shared: a result that is there stays there for every clone.
unfoldable pub poll : Option (Option (Result DownloadResult)) → Option (Result DownloadResult)
poll none = none
poll (some arrived) = some (received arrived)

-- The `?` on a send, through `From<SendError>`.
abbrev pub after_send : Bool → Result (Unit {0}) → Result (Unit {0})
after_send taken result = if taken then result else err from_send

unfoldable pub pause :
    (id ack : ℕ) → Bool → Option (Result (Unit {0})) → SchedulerCmd × Result (Unit {0})
pause id ack taken answer = (State.pause id ack, after_send taken (received answer))

unfoldable pub resume :
    (id ack : ℕ) → Bool → Option (Result (Unit {0})) → SchedulerCmd × Result (Unit {0})
resume id ack taken answer = (State.resume id ack, after_send taken (received answer))

abbrev pub cancelled_or_done : Result DownloadResult → Result (Unit {0})
cancelled_or_done (ok _) = ok tt
cancelled_or_done (err cancelled) = ok tt
cancelled_or_done (err error) = err error

unfoldable pub cancel :
    (id : ℕ) → Bool → Option (Result DownloadResult) → SchedulerCmd × Result (Unit {0})
cancel id taken result = (State.cancel id, after_send taken (cancelled_or_done (received result)))

abbrev pub of_id : ℕ → List Event → List Event
of_id id [] = []
of_id id (event ∷ rest) =
    let later = of_id id rest in if event.id == id then event ∷ later else later

-- What a receiver gives belongs to `async_broadcast`: `receives before now` is what one gives that
-- `new_receiver` has made when the events `before` had been sent, once `now` have been.
unfoldable pub events :
    (receives : (before now : List Event) → List Event)
    → (id : ℕ) → (before now : List Event) → List Event
events receives id before now = of_id id (receives before now)
