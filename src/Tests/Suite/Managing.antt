-- ===== src/Tests/Suite/Managing.antt =====
-- The tests of manager.rs, download.rs and scheduler.rs. The client answers every request with an
-- empty body, and so a worker comes back with no bytes.
use download_manager.Base.{
  ℕ, ◌*◌, Bool, true, false, ◌&&◌, Option, none, some, [], ◌∷◌, ◌++◌, ◌≡◌, refl, ◌==◌,
}
use download_manager.Error.{Result, ok, err, cancelled}
use download_manager.Job.{DownloadResult, WorkerResult, stopped, Log, deliver}
use download_manager.Request.{Request}
use download_manager.Storage.Paths.{FilePath}
use download_manager.Storage.FileSystem.{done}
use download_manager.Scheduler.State.{Scheduler, SchedulerCmd, cancel}
use download_manager.Scheduler.Backoff.{ExponentialBackoff, next_delay}
use download_manager.Scheduler.Loop.{command, worker, Outcome, waits, run}
use download_manager.Scheduler.Running.{Rounds}
use download_manager.Context
use download_manager.Download
use download_manager.Download.{poll}
use download_manager.Manager
use download_manager.Manager.{DownloadManager, default, done_message}
use download_manager.Tests.World.{running, Disk, world, same_path}
use download_manager.Tests.Scheduling.{never}
use download_manager.Scheduler.State.{Env, enqueue}
use download_manager.Scheduler.State
use download_manager.Scheduler.Loop.{round}
use download_manager.Request.Builder.{build, builder, build_config, default_config}
use download_manager.Manager.{Names, taken}
use download_manager.Worker.Client.{Response}
use download_manager.Worker.Transfer.{ended}
use download_manager.Worker.Run.{WorkerEnv, Peer, responds}
use download_manager.Worker.Run
use download_manager.Tests.World.{statuses}
use download_manager.Tests.Drive.{ranges_only}
use download_manager.Tests.Files.{Files, no_files, in_memory}
use download_manager.Tests.Transferring.{crate, whole, working}
use download_manager.Tests.Running.{channels}

abbrev seconds : ℕ → ℕ
seconds n = n * 1_000_000_000

abbrev is_delay : ℕ → Option ℕ → Bool
is_delay delay none = false
is_delay delay (some found) = found == delay

abbrev exponential_backoff_grows_and_caps : Bool
exponential_backoff_grows_and_caps =
    let backoff : ExponentialBackoff = record { base_delay = seconds 1; max_delay = seconds 8 } in
    is_delay (seconds 1) (next_delay backoff 0)
    && (is_delay (seconds 2) (next_delay backoff 1)
        && (is_delay (seconds 4) (next_delay backoff 2)
            && (is_delay (seconds 8) (next_delay backoff 3)
                && is_delay (seconds 8) (next_delay backoff 10))))

backs_off : exponential_backoff_grows_and_caps ≡ true
unfolding next_delay
backs_off = refl

abbrev shared : FilePath
shared = record { parent = ""; file_name = some "shared-result.bin" }

abbrev is_result : FilePath → ℕ → Option (Result DownloadResult) → Bool
is_result path bytes (some (ok result)) =
    same_path result.path path && (result.bytes_downloaded == bytes)
is_result path bytes _ = false

-- Both clones poll the result that has arrived.
abbrev clones_share_terminal_result : Bool
clones_share_terminal_result =
    let arrived : Option (Option (Result DownloadResult)) =
      some (some (ok (record { path = shared; bytes_downloaded = 42 }))) in
    is_result shared 42 (poll arrived) && is_result shared 42 (poll arrived)

abbrev is_cancel_of : ℕ → SchedulerCmd → Bool
is_cancel_of id (cancel cancelled_id) = cancelled_id == id
is_cancel_of id _ = false

abbrev is_ok {ℓ} : {A : Type ℓ} → Result A → Bool
is_ok (ok _) = true
is_ok (err _) = false

abbrev cancel_waits_for_terminal_cancellation_result : Bool
cancel_waits_for_terminal_cancellation_result =
    let (sent, result) = Download.cancel 7 true (some (err cancelled)) in
    is_cancel_of 7 sent && is_ok result

handles :
    (clones_share_terminal_result ≡ true) × (cancel_waits_for_terminal_cancellation_result ≡ true)
unfolding poll Download.cancel
handles = (refl, refl)

-- A new manager, and what its scheduler's thread does with some rounds.
abbrev Started : Type 0
Started = Result (DownloadManager (Unit {0}) ℕ (Unit {0}) × Scheduler Disk)

abbrev started : Started
started = Manager.new channels tt default 1 2 (done tt) []

abbrev answers : ℕ → ℕ × Result WorkerResult
answers n = (0, ok stopped)

-- The scheduler's thread, which shares the manager's context.
abbrev on_thread : Rounds → Scheduler Disk → Context.Context (Unit {0}) ℕ (Unit {0}) → Outcome Disk
on_thread rounds scheduler ctx = run world answers (rounds ++ waits ctx.cancel_root []) scheduler

abbrev receives_done : Outcome Disk → Bool
receives_done outcome = elim (done_message outcome) [ some (some _) ↦ true | _ ↦ false ]

abbrev dropped : Started → Bool
dropped (ok (manager, scheduler)) =
    receives_done (on_thread [] scheduler (Manager.drop manager).ctx)
dropped (err _) = false

-- Of the test's two assertions the first: that nothing holds the context any more is about `Arc`.
abbrev dropping_manager_stops_scheduler : Bool
dropping_manager_stops_scheduler = dropped started

abbrev shut_down_after : Rounds → Started → Bool
shut_down_after rounds (ok (manager, scheduler)) =
    (Manager.shutdown manager (on_thread rounds scheduler)).1
shut_down_after rounds (err _) = false

abbrev concurrency_limit_can_be_changed_at_runtime : Bool
concurrency_limit_can_be_changed_at_runtime =
    let (changed, result) = Manager.set_max_concurrent 5 true in
    is_ok result && shut_down_after ((command changed, never) ∷ []) started

-- What has come to a result channel.
abbrev arrived : ℕ → Log → Option (Option (Result DownloadResult))
arrived tx [] = none
arrived tx (deliver at result ∷ log) = elim (at == tx) [
  | true ↦ some (some result)
  | false ↦ arrived tx log
]
arrived tx (_ ∷ log) = arrived tx log

abbrev file : FilePath
file = record { parent = "/tmp/"; file_name = some "dm-manager-test" }

abbrev empty_answer : Response
empty_answer = record { status = 200; header = λ name. none }

abbrev mock : Peer
mock = record {
  stop_requested = λ n. false;
  send = λ n http_request. responds empty_answer;
  body = ended;
  started = 0;
  ended = 0;
}

abbrev machine : WorkerEnv ℕ Files
machine = record {
  http = statuses;
  crate = crate;
  json = ranges_only;
  fs = in_memory;
  float = whole;
}

abbrev names : Names
names = record { id = 7; events = 4; progress = 5; result = 6 }

abbrev resolves_to : FilePath → ℕ → Option (Scheduler Files) → Bool
resolves_to path tx none = false
resolves_to path tx (some s) = is_result path 0 (poll (arrived tx s.log))

-- The command is handled and the job dispatched; its worker runs, and its result is handled.
abbrev downloaded : Request → SchedulerCmd → Option (Scheduler Files)
downloaded request enqueued =
    let env : Env Files = record { http = statuses; fs = in_memory; id_text = λ id. "id" } in
    let start : Scheduler Files = State.new 3 no_files in
    elim (round env (command enqueued) never start) [
      | none ↦ none
      | some s ↦
          let (result, (files, _)) = Run.run machine mock request s.disk in
          round env (worker 0 result) never (record s { disk = files })
    ]

abbrev request_of : SchedulerCmd → Option Request
request_of (enqueue _ request _ _) = some request
request_of _ = none

abbrev downloads_run_without_an_external_executor : Bool
downloads_run_without_an_external_executor =
    let manager : DownloadManager (Unit {0}) ℕ (Unit {0}) = record {
      scheduler_tx = 1;
      done_rx = 2;
      ctx = Context.new channels tt;
    } in
    elim (Manager.download whole 0 manager names "https://example.com/file" file taken) [
      | err _ ↦ false
      | ok enqueued ↦ elim (request_of enqueued.command) [
        | none ↦ false
        | some request ↦
            is_ok enqueued.handle && resolves_to file 6 (downloaded request enqueued.command)
      ]
    ]

manages :
    (dropping_manager_stops_scheduler ≡ true)
    × (concurrency_limit_can_be_changed_at_runtime ≡ true)
    × (downloads_run_without_an_external_executor ≡ true)
unfolding running working Manager.new Manager.download Manager.drop Manager.shutdown
    Manager.set_max_concurrent run Run.run poll default Manager.enqueue build builder build_config
    default_config
manages = (refl, refl, refl)
