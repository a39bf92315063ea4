-- ===== src/Tests/Awaiting.antt =====
-- Two downloads are enqueued, the second one through the manager, and then the manager is shut down.
use download_manager.Base.{refl, some_inj, subst, [], ◌∷◌, ◌++◌, arith}
use download_manager.Error.{err, network}
use download_manager.Download.{Download}
use download_manager.Scheduler.State
use download_manager.Scheduler.State.{new}
use download_manager.Scheduler.Loop.{stop, command, worker, run}
use download_manager.Scheduler.Running.{Rounds, Sound}
use download_manager.Manager.{Names, taken, enqueue}
use download_manager.Manager.Awaiting.{Arrives, enqueue-Arrives}
use download_manager.Tests.World.{running, world, request, part_file}
use download_manager.Tests.Scheduling.{never, start}
use download_manager.Tests.Transferring.{whole}
use download_manager.Tests.Running.{answers, manager}

abbrev names : Names
names = record { id = 7; events = 69; progress = 70; result = 71 }

abbrev before : Rounds
before = (command (State.enqueue 6 request 60 61), never) ∷ []

abbrev after : Rounds
after = (worker 0 (err (network "reset")), never) ∷ (stop, never) ∷ []

abbrev rounds : Rounds
rounds = before ++ (command (State.enqueue 7 request 70 71), never) ∷ after

abbrev handle : Download
handle = record { id = 7; events = 69; progress = 70; result = 71; cmd_tx = 1 }

rounds-Sound : Sound world rounds start
unfolding running
rounds-Sound = (
  (refl, refl, omega arith),
  omega arith,
  λ s e.
      subst (Sound world ((command (State.enqueue 7 request 70 71), never) ∷ after)) (some_inj e)
        ((refl, refl, omega arith), omega arith, λ t f. (tt, tt, λ u g. (tt, tt, λ v h. tt))),
)

enqueue-Arrives_example : Arrives 71 (run world answers rounds (new 1 (part_file ∷ [])))
unfolding enqueue
enqueue-Arrives_example =
    enqueue-Arrives whole 5 manager names request world answers 1 (part_file ∷ []) before after
      never taken {h = handle} refl rounds-Sound refl refl refl refl
