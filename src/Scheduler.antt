-- ===== src/Scheduler.antt =====
-- scheduler.rs
pub mod Backoff
pub mod State
pub mod Transition
pub mod Loop
pub mod Placed
pub mod Reach
pub mod Rounds
pub mod Ledger
pub mod Shutdown
pub mod Dispatch
pub mod Serving
pub mod Retries
pub mod Timers
pub mod Diagram
pub mod Drain
pub mod Observed
pub mod Order
pub mod Running
pub mod Cleanup
pub mod Assigned
pub mod Delivered
pub mod Grows
pub mod Tokens
pub mod Telling
