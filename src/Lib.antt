-- ===== src/Lib.antt =====
-- A verification library for the download manager, a Rust crate that schedules HTTP downloads.
--
-- The program. A `DownloadManager` (src/manager.rs) runs one scheduler thread (src/scheduler.rs) and
-- sends it commands. The scheduler keeps a table of jobs (src/scheduler/job.rs), a queue of ids that
-- are ready, timers of retries, and the running workers (src/worker.rs), at most so many at once. A
-- worker transfers one request (src/request.rs) into a `.part` file beside its destination
-- (src/storage/). Events (src/events.rs) go to a broadcast channel, results and acknowledgements to
-- one channel each. `Download` (src/download.rs) is the handle of one download.
--
-- The model. Each function of the source is a definition; state is passed and returned. Ids, channels
-- and cancellation tokens are numbers. What the code hands to a channel or a token is written to a
-- log, the newest entry first; what the channel then does is not part of the program. The log keeps
-- every `try_send` and `try_broadcast`, whose results the code drops. What the program takes from
-- other crates or the system is a parameter: the file system (Storage/FileSystem), HTTP status codes
-- (Http), and the text of an id (the record `Env` of Scheduler/State). Integers keep their width:
-- `u32` and `u64` write the wrap-around out. A `HashMap` is an association list (Base/Maps), whose
-- order stands for the order of iteration.
--
-- Files.
-- - Base and its children: shared names, Boolean tests, weighted counts over lists, maps.
-- - Http, Storage/FileSystem: statuses and the file system, which are parameters. Io: fallible code
--   that changes the disk; what was done before an error stays done.
-- - Storage/Paths, Storage/Discard, Storage/Sidecar: the names of the sidecar files,
--   `discard_partial`, `part_len`, and `Manifest::load` and `Manifest::save`, with `serde_json` as a
--   parameter (src/storage/mod.rs, src/storage/manifest.rs).
-- - Storage/Manifest: the rest of src/storage/manifest.rs; Manifest/Resume has what `resume_offset`
--   finds.
-- - Storage/PartFile: src/storage/file.rs; `open_at` is `PartFile::open`. PartFile/Laws is what the
--   file system is taken to do, over what the disk shows (`View`); Durable, Recorded, Uses,
--   Opening, Position, Synced and Saved are about the manifest on disk and the bytes that a crash
--   leaves, Keeping and Contents about the bytes of the file.
-- - Error, Events, Request: src/error.rs, src/events.rs, src/request.rs. Events/Progress is
--   `Progress`, Progress/Sampling says when it samples, and Events/Text has the texts. Request/Builder
--   is the builder.
-- - Job, Job/Methods: src/scheduler/job.rs.
-- - Scheduler/Backoff: `ExponentialBackoff`; Backoff/Delays has what the delays are.
-- - Scheduler/State, Scheduler/Transition, Scheduler/Loop: src/scheduler.rs. `transition_job` is split
--   into one function for each event (`on_dispatch`, `on_pause`, ...). `none` is a panic of the
--   scheduler's thread. `run` is given, for each round, what the loop has waited for, and the answers
--   of the root token; so theorems range over every order of commands, results and timers.
-- - Scheduler/Loop's `waits` is the first arm of the `select_biased!`: once the root token is cancelled,
--   the loop stops whatever else it could do.
-- - Scheduler/Reach: the states that rounds lead to. A round may be any, but an enqueued id is fresh.
-- - Scheduler/Placed, Rounds, Assigned: ids in the queue and in the set of workers, and what a worker
--   is given.
-- - Scheduler/Tokens: the tokens that stop workers.
-- - Scheduler/Delivered: which result goes to which channel.
-- - Scheduler/Ledger: what is owed to channels and what has been sent.
-- - Scheduler/Shutdown, Drain, Running: `CancelAll`, the end of `run`, and all of `run`.
-- - Scheduler/Cleanup: the files of a cancelled download. Scheduler/Telling: what a download is told at
--   its end.
-- - Scheduler/Dispatch, Serving, Order: the limit on workers, that no queued job is forgotten, and
--   which ids get the free places.
-- - Scheduler/Observed and its children: what the events of a download tell a listener.
-- - Scheduler/Retries, Timers: attempts, the panic of the back-off, and timers.
-- - Scheduler/Diagram: the life of a job.
-- - Worker: src/worker.rs. Worker/Client builds requests and reads responses, Worker/Number is the
--   text of a u64, Client/Ranges is what a server reads in a request, Worker/Transfer is the loop
--   over the body, Worker/Run is `run`, split into `prepare` and `transfer_all`. What a run meets
--   (stop requests, answers, the body, the time) is a `Peer`. Transfer/Counting, Run/Beginning and
--   Run/Finished are about the count of bytes, Run/Starting and Run/Asking are about where a
--   transfer starts and what the server was asked, Transfer/Stopping and Transfer/Saving about what
--   a stop leaves on disk, Run/Resuming about the run that comes after it, and Transfer/Appending,
--   Run/Keeping and Run/Delivering about the bytes at the destination.
-- - Context, Download, Manager: src/context.rs, src/download.rs and src/manager.rs. Methods are the
--   commands that they send and what they return for what comes back; `new` gives the manager with
--   the scheduler that its thread runs. Manager/Life goes from `new` to the end of `shutdown`, by
--   the root token that the manager and the loop share, Manager/Awaiting from `enqueue` to what
--   awaiting the handle gives, and Download/Listening is about the events that a handle yields from
--   when it begins to listen; Scheduler/Grows is about the log of an earlier state.
-- - Tests: runs at concrete inputs, over disks in memory. Tests/Suite has the program's own tests
--   (`#[cfg(test)]`), as Booleans that come out true.
--
-- Fuel. `dispatch_loop` has one round for each id that is ready, and each round takes one away. `drain`
-- has one round for each worker, and each round takes one away. `resume_loop` has one round for each
-- range. All three are proved to be enough. `show_u64` has twenty digits, and no u64 has more.
--
-- Not modelled. Log messages (`tracing`); the buffers of the channels, which belong to other crates;
-- the futures' own scheduling; the thread itself, of which only whether it could be started and how
-- `run` ends on it are seen; and examples/usage.rs, a demonstration.
pub mod Base
pub mod Http
pub mod Storage
pub mod Error
pub mod Io
pub mod Events
pub mod Request
pub mod Job
pub mod Scheduler
pub mod Worker
pub mod Context
pub mod Download
pub mod Manager
pub mod Tests
