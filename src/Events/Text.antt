-- ===== src/Events/Text.antt =====
-- events.rs: the texts of events. The text of an id is a parameter.
use Prim.Native.String.{◌++◌}
use download_manager.Base.{ℕ, String}
use download_manager.Events.{
  Event, EventKind, queued, started, retry_scheduled, pause_started, paused, cancellation_started,
  cancelled, completed, failed,
}
use download_manager.Worker.Number.{show_u64}

unfoldable pub kind_text : EventKind → String
unfolding show_u64
kind_text queued = "Queued"
kind_text started = "Started"
kind_text (retry_scheduled attempt next_delay_ms) =
    "Retrying: attempt " ++ (show_u64 attempt ++ (" in " ++ (show_u64 next_delay_ms ++ " ms")))
kind_text pause_started = "Pause started"
kind_text paused = "Paused"
kind_text cancellation_started = "Cancellation started"
kind_text cancelled = "Cancelled"
kind_text completed = "Completed"
kind_text (failed error) = "Failed: " ++ error

unfoldable pub event_text : (ℕ → String) → Event → String
unfolding kind_text
event_text id_text event = "[" ++ (id_text event.id ++ ("]: " ++ kind_text event.kind))
