-- ===== src/Tests.antt =====
-- Runs of the program at concrete inputs, and the theorems applied there.
mod World
mod Scheduling
mod Retrying
mod Drive
mod Storing
mod Transferring
mod Asking
mod Resuming
mod Tape
mod Delivering
mod Cancelling
mod Requests
mod Completing
mod Running
mod Awaiting
mod Files
mod Suite
