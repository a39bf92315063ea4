-- ===== src/Worker.antt =====
-- worker.rs: the transfer of one request.
pub mod Number
pub mod Client
pub mod Transfer
pub mod Run
