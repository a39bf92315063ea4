-- ===== src/Tests/Retrying.antt =====
-- A download that fails and is retried, and one with more retries than the scheduler survives.
use Prim.Native.Nat.{max}
use download_manager.Base.{
  take, drop, ◌*◌, ◌^◌, ◌≤◌, ◌≡◌, refl, none, some, [], ◌∷◌, ◌++◌, arith, min, ltb, if◌then◌else◌,
  length, tally, lookup,
}
use download_manager.Error.{err, network}
use download_manager.Job.{Job, JobEvent, WorkerResult, stopped}
use download_manager.Job
use download_manager.Scheduler.State.{Scheduler, enqueue, set_max_concurrent}
use download_manager.Scheduler.Order.{served, room, Reach-Starts}
use download_manager.Scheduler.Backoff.{next_delay, backoff_strategy}
use download_manager.Scheduler.Backoff.Delays.{next_delay_exact}
use download_manager.Scheduler.Transition.{on_cancel, on_worker}
use download_manager.Scheduler.Loop.{command, worker, retry, round, try_dispatch}
use download_manager.Scheduler.Reach.{Reach, here, step}
use download_manager.Scheduler.Dispatch.{try_dispatch-bound}
use download_manager.Scheduler.Serving.{Served, Reach-Served}
use download_manager.Scheduler.Retries.{attempt_of, retries_of}
use download_manager.Scheduler.Retries.Panics.{round_returns, on_worker_panics}
use download_manager.Scheduler.Timers.{timer, retry_at, reached}
use download_manager.Scheduler.Timers.Rounds.{Reach-Timed}
use download_manager.Scheduler.Diagram.{Follows, transition_job-Follows}
use download_manager.Tests.World.{running, Disk, world, request, part_file}
use download_manager.Tests.Scheduling.{never, start, after, one}

abbrev failed_first : Scheduler Disk
failed_first = after (worker 0 (err (network "reset"))) one

failed_once : Reach world start failed_first
unfolding running
failed_once =
    step (worker 0 (err (network "reset"))) never
      (step (command (enqueue 7 request 70 71)) never here (refl, refl, omega arith) refl) tt refl

-- The first retry is due after a second, the state says so, and the timer brings the job back.
retries_once :
    (failed_first.delayed ≡ (7, 1) ∷ [])
    × (retry_at 1 (lookup 7 failed_first.jobs) ≡ 1)
    × (length (after (retry 0) failed_first).workers ≡ 1)
unfolding running
retries_once = (refl, refl, refl)

Reach-Timed_example :
    (attempt_of (lookup 7 failed_first.jobs) ≤ retries_of (lookup 7 failed_first.jobs))
    × (retry_at 1 (lookup 7 failed_first.jobs) ≤ tally (timer 7 1) failed_first.delayed)
    × (tally (timer 7 1) failed_first.delayed ≤ reached 1 (lookup 7 failed_first.jobs))
Reach-Timed_example = Reach-Timed world 1 (part_file ∷ []) failed_once 7 1

abbrev waiting_second : Scheduler Disk
waiting_second = after (command (enqueue 8 request 80 81)) one

two_enqueued : Reach world start waiting_second
unfolding running
two_enqueued =
    step (command (enqueue 8 request 80 81)) never
      (step (command (enqueue 7 request 70 71)) never here (refl, refl, omega arith) refl)
      (refl, refl, omega arith) refl

Reach-Served_example : Served 8 waiting_second
unfolding two_enqueued
Reach-Served_example =
    Reach-Served world 1 (part_file ∷ []) two_enqueued (λ n. refl, (λ n. refl, tt)) 8

-- One place more, and a download that waits for one.
abbrev widened : Scheduler Disk
widened = record waiting_second { max_concurrent = 2 }

Reach-Starts_example :
    (t : Scheduler Disk) × (round world (command (set_max_concurrent 2)) never waiting_second
      ≡ some t)
    × (served t ≡ served widened ++ take (room widened) widened.ready)
    × (t.ready ≡ drop (room widened) widened.ready)
unfolding two_enqueued
Reach-Starts_example =
    Reach-Starts world 1 (part_file ∷ []) two_enqueued (command (set_max_concurrent 2)) never
      (λ n. refl) tt refl

try_dispatch-bound_example : length (try_dispatch never one).workers ≤ max (length one.workers) 1
unfolding running
try_dispatch-bound_example = try_dispatch-bound never one

round_returns_example : (t : Scheduler Disk) × (round world (retry 0) never failed_first ≡ some t)
unfolding failed_once
round_returns_example =
    round_returns world 1 (part_file ∷ []) failed_once (tt, (omega arith, tt)) (retry 0) never

next_delay_exact_example :
    next_delay backoff_strategy 3
    ≡ (if ltb 3 64 then some (min (1_000_000_000 * 2 ^ 3) 10_000_000_000) else none)
next_delay_exact_example = next_delay_exact 3 (omega arith)

abbrev stubborn : Job
stubborn = record {
  id = 7;
  request = record request { config = record request.config { retries = 100 } };
  progress_tx = 70;
  attempt = 64;
  result = some 71;
  state = Job.running 0;
}

abbrev exhausted : Scheduler Disk
exhausted = record start { jobs = (7, stubborn) ∷ [] }

on_worker_panics_example : on_worker world 7 (err (network "reset")) exhausted ≡ none
unfolding running
on_worker_panics_example =
    on_worker_panics world 7 0 (network "reset") stubborn exhausted refl refl refl (omega arith)
      (omega arith) (omega arith)

transition_job-Follows_example : Follows 7 8 one (on_cancel world 7 one)
unfolding running
transition_job-Follows_example =
    transition_job-Follows world 7 8 JobEvent.cancel one {t = on_cancel world 7 one} tt refl
