-- ===== src/Tests/Completing.antt =====
-- A download that completes.
use download_manager.Base.{
  ℕ, ◌≡◌, refl, Bool, true, none, some, [], ◌∷◌, arith, ◌==◌, if◌then◌else◌,
}
use download_manager.Error.{ok, err, file_exists}
use download_manager.Job.{Job, DownloadResult, finished, running}
use download_manager.Storage.Paths.{FilePath}
use download_manager.Scheduler.State.{Scheduler, enqueue}
use download_manager.Scheduler.Loop.{command, worker}
use download_manager.Scheduler.Reach.{Reach, here, step}
use download_manager.Scheduler.Delivered.{rightly}
use download_manager.Scheduler.Delivered.Rounds.{AllRight, Reach-rightly}
use download_manager.Scheduler.Transition.{on_worker}
use download_manager.Scheduler.Telling.{EndsWith, Told, on_worker-Told}
use download_manager.Tests.World.{Disk, same_path, destination, world, request, part_file}
use download_manager.Tests.World
use download_manager.Tests.Scheduling.{never, start, after, one}

abbrev result : DownloadResult
result = record { path = destination; bytes_downloaded = 5 }

abbrev completed : Scheduler Disk
completed = after (worker 0 (ok (finished result))) one

-- Only the destination belongs to the channel 71.
abbrev belongs : ℕ → FilePath → Bool
belongs r path = if r == 71 then same_path path destination else true

reached : Reach world start completed
unfolding World.running
reached =
    step (worker 0 (ok (finished result))) never
      (step (command (enqueue 7 request 70 71)) never here (refl, refl, omega arith) refl) tt refl

reached-AllRight : AllRight belongs reached
unfolding World.running reached
reached-AllRight = (refl, (refl, tt))

Reach-rightly_example : rightly belongs completed.log ≡ true
Reach-rightly_example = Reach-rightly belongs world 1 (part_file ∷ []) reached reached-AllRight

abbrev running_job : Job
running_job = record {
  id = 7;
  request = request;
  progress_tx = 70;
  attempt = 0;
  result = some 71;
  state = running 0;
}

-- An error that is not retryable.
abbrev refused : Scheduler Disk
refused = elim (on_worker world 7 (err (file_exists destination)) one) [ none ↦ one | some t ↦ t ]

on_worker-Told_example :
    Told world 71 7
      (EndsWith world running_job one.disk (running 0) (err (file_exists destination)))
      refused
unfolding World.running
on_worker-Told_example =
    on_worker-Told world 7 71 (err (file_exists destination)) one {job = running_job} {t = refused}
      refl refl refl refl refl refl
