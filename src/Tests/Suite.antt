-- ===== src/Tests/Suite.antt =====
-- The program's own tests: each is a Boolean, and comes out true.
mod Storing
mod Counting
mod Requesting
mod Managing
