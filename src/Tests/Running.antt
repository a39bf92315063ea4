-- ===== src/Tests/Running.antt =====
-- A scheduler from its start to its end: one download fails once, and then the manager is shut down.
use download_manager.Base.{ℕ, ◌≡◌, refl, true, [], ◌∷◌, ◌++◌, arith, bit, ◌==◌}
use download_manager.Error.{Result, ok, err, network}
use download_manager.Job.{WorkerResult, stopped}
use download_manager.Storage.FileSystem.{done}
use download_manager.Context.{Broadcasts, Context}
use download_manager.Context
use download_manager.Scheduler.State.{enqueue, pause}
use download_manager.Scheduler.Loop.{command, worker, retry, Outcome, run}
use download_manager.Scheduler.Running.{Rounds, asked_before, Sound, Settles}
use download_manager.Manager.{DownloadManager, new, drop, shutdown}
use download_manager.Manager.Life.{thread, shutdown-Settles}
use download_manager.Tests.World.{running, Disk, world, request, part_file}
use download_manager.Tests.Scheduling.{never, start}

abbrev rounds : Rounds
rounds = (command (enqueue 7 request 70 71), never) ∷ (worker 0 (err (network "reset")), never) ∷ []

-- A command and a timer that the loop would find if it went on.
abbrev later : Rounds
later = (command (pause 7 72), never) ∷ (retry 0, never) ∷ []

abbrev pub answers : ℕ → ℕ × Result WorkerResult
answers n = (0, ok stopped)

abbrev first_result : ℕ → ℕ
first_result r = bit (r == 71)

abbrev no_ack : ℕ → ℕ
no_ack a = 0

-- Channels that are their capacity.
abbrev pub channels : Broadcasts ℕ (Unit {0}) (Unit {0})
channels = record {
  broadcast = λ capacity. (capacity, tt);
  set_overflow = λ on sender. sender;
  set_await_active = λ on sender. sender;
  deactivate = λ receiver. receiver;
  new_receiver = λ sender. tt;
}

abbrev pub manager : DownloadManager (Unit {0}) ℕ (Unit {0})
manager = record { scheduler_tx = 1; done_rx = 2; ctx = Context.new channels tt }

rounds-Sound : Sound world rounds start
unfolding running
rounds-Sound = ((refl, refl, omega arith), omega arith, λ s e. (tt, tt, λ t f. tt))

starts :
    new channels tt (record { max_concurrent = 1 }) 1 2 (done tt) (part_file ∷ [])
    ≡ ok (manager, start)
unfolding new
starts = refl

abbrev on_thread : Context (Unit {0}) ℕ (Unit {0}) → Outcome Disk
on_thread = thread channels world answers no_ack first_result rounds later start

-- Without the stop, the loop goes on to what is there.
goes_on_otherwise : on_thread manager.ctx ≡ run world answers (rounds ++ later) start
unfolding Context.new
goes_on_otherwise = refl

shutdown-Settles_example :
    ((shutdown manager on_thread).1 ≡ true)
    × Settles no_ack first_result
        (asked_before no_ack first_result rounds)
        (on_thread (shutdown manager on_thread).0.ctx)
    × Settles no_ack first_result
        (asked_before no_ack first_result rounds)
        (on_thread (drop manager).ctx)
shutdown-Settles_example =
    shutdown-Settles channels world answers no_ack first_result tt (record { max_concurrent = 1 }) 1
      2 (done tt) (part_file ∷ []) rounds later {manager = manager} {s = start} starts rounds-Sound
