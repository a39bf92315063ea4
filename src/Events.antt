-- ===== src/Events.antt =====
-- events.rs
pub mod Progress
pub mod Text
use download_manager.Base.{ℕ, String}

pub data EventKind : Type 0 where
  queued started : EventKind
  retry_scheduled : (attempt next_delay_ms : ℕ) → EventKind
  pause_started paused cancellation_started cancelled completed : EventKind
  failed : (error : String) → EventKind

pub record Event : Type 0 where
  pub id : ℕ
  pub kind : EventKind
