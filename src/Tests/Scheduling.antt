-- ===== src/Tests/Scheduling.antt =====
-- Two downloads with one place: the first is paused while it runs.
use download_manager.Base.{
  List, map, drop, ap, some, ℕ, ◌+◌, ◌≤◌, ◌<◌, ◌≡◌, refl, Bool, true, false, none, some, [], ◌∷◌,
  arith, bit, ◌==◌, length, count, tally, lookup,
}
use download_manager.Events.{Event, pause_started, paused}
use download_manager.Error.{Result, ok}
use download_manager.Job.{WorkerResult, stopped}
use download_manager.Scheduler.State.{Scheduler, enqueue, pause, new}
use download_manager.Scheduler.Placed
use download_manager.Scheduler.Loop.{Next, command, worker, round, shut_down}
use download_manager.Scheduler.Rounds.{Reach-Placed}
use download_manager.Scheduler.Ledger.{entry, paid}
use download_manager.Scheduler.Ledger.Rounds.{asked_in, Reach-balance}
use download_manager.Scheduler.Observed.{observed, orderly}
use download_manager.Scheduler.Observed.Rounds.{Reach-Observed}
use download_manager.Scheduler.Diagram.{stage}
use download_manager.Scheduler.Drain.{Empty, Reach-shut_down}
use download_manager.Scheduler.Reach.{Reach, here, step, Reach-trans}
use download_manager.Scheduler.Tokens.{holder, may_hold}
use download_manager.Scheduler.Tokens.Rounds.{Reach-Held}
use download_manager.Scheduler.Assigned.{given_at, has_of}
use download_manager.Scheduler.Assigned.Rounds.{Reach-Assigned}
use download_manager.Request.{Request}
use download_manager.Download.{events}
use download_manager.Download.Listening.{listen, sent, Reach-listen}
use download_manager.Tests.World.{running, Disk, world, request, part_file}

abbrev pub never : ℕ → Bool
never _ = false

abbrev pub start : Scheduler Disk
start = new 1 (part_file ∷ [])

-- The state after a round that does not panic.
abbrev pub after : Next → Scheduler Disk → Scheduler Disk
after next s = elim (round world next never s) [ none ↦ s | some t ↦ t ]

abbrev pub one : Scheduler Disk
one = after (command (enqueue 7 request 70 71)) start

abbrev two : Scheduler Disk
two = after (command (enqueue 8 request 80 81)) one

abbrev pausing_first : Scheduler Disk
pausing_first = after (command (pause 7 90)) two

abbrev paused_first : Scheduler Disk
paused_first = after (worker 0 (ok stopped)) pausing_first

reached_two : Reach world start two
unfolding running
reached_two =
    step (command (enqueue 8 request 80 81)) never
      (step (command (enqueue 7 request 70 71)) never here (refl, refl, omega arith) refl)
      (refl, refl, omega arith) refl

onward : Reach world two paused_first
unfolding running
onward = step (worker 0 (ok stopped)) never (step (command (pause 7 90)) never here tt refl) tt refl

reached : Reach world start paused_first
reached = Reach-trans world reached_two onward

-- The freed place goes to the second download.
first_pauses :
    (length paused_first.workers ≡ 1)
    × (tally (Placed.worker_of 8) paused_first.workers ≡ 1)
    × (paused_first.ready ≡ [])
unfolding running
first_pauses = (refl, refl, refl)

Reach-Placed_example :
    (count 8 paused_first.ready ≤ Placed.queued_at (lookup 8 paused_first.jobs))
    × (tally (Placed.worker_of 8) paused_first.workers
        ≡ Placed.active_at (lookup 8 paused_first.jobs))
Reach-Placed_example = Reach-Placed world 1 (part_file ∷ []) reached 8

-- Which of the channels 71 and 81 is meant.
abbrev first_result : ℕ → ℕ
first_result r = bit (r == 71)

abbrev pause_ack : ℕ → ℕ
pause_ack a = bit (a == 90)

Reach-balance_example :
    tally (entry pause_ack first_result) paused_first.jobs
      + tally (paid pause_ack first_result) paused_first.log
    ≡ asked_in pause_ack first_result world reached
Reach-balance_example = Reach-balance pause_ack first_result world 1 (part_file ∷ []) reached

abbrev answers : ℕ → ℕ × Result WorkerResult
answers _ = (0, ok stopped)

Reach-shut_down_example :
    (t : Scheduler Disk) × (shut_down world answers paused_first ≡ some t)
    × Empty t
    × (tally (paid pause_ack first_result) t.log ≡ asked_in pause_ack first_result world reached)
Reach-shut_down_example =
    Reach-shut_down world answers pause_ack first_result 1 (part_file ∷ []) reached

Reach-Observed_example :
    (observed 7 paused_first.log ≡ stage (lookup 7 paused_first.jobs))
    × (orderly 7 paused_first.log ≡ true)
Reach-Observed_example = Reach-Observed world 1 (part_file ∷ []) reached 7

-- A weight in which both the request and the channel of progress count.
abbrev weight : Request → ℕ → ℕ
weight request progress_tx = request.config.retries + progress_tx

-- The second download runs, and its worker has the request and a channel.
second_runs : 0 < tally (has_of weight 8) paused_first.workers
unfolding running
second_runs = omega arith

Reach-Assigned_example :
    tally (has_of weight 8) paused_first.workers ≡ given_at weight (lookup 8 paused_first.jobs)
Reach-Assigned_example = Reach-Assigned weight world 1 (part_file ∷ []) reached 8

-- A receiver that loses nothing gives what comes after the messages that had been sent before.
abbrev from_the_call : List Event → List Event → List Event
from_the_call before now = drop (length before) now

-- Listening begins when the first download runs, and so its events before that are not seen.
sees_the_pause :
    map
      (λ (event : Event). event.kind)
      (events from_the_call 7 (sent two.log) (sent paused_first.log))
    ≡ pause_started ∷ paused ∷ []
unfolding running events
sees_the_pause = refl

Reach-listen_example :
    listen
      (stage (lookup 7 two.jobs))
      (events from_the_call 7 (sent two.log) (sent paused_first.log))
    ≡ some (stage (lookup 7 paused_first.jobs))
unfolding running
Reach-listen_example =
    Reach-listen world from_the_call 1 (part_file ∷ []) reached_two onward
      (λ later e. ap (drop (length (sent two.log))) e) 7

reached_pausing : Reach world start pausing_first
unfolding running
reached_pausing = step (command (pause 7 90)) never reached_two tt refl

-- The paused download's worker, which has the token 0, is still there.
one_holder : tally (holder 0 7) pausing_first.workers ≡ 1
unfolding running
one_holder = refl

Reach-Held_example :
    tally (holder 0 7) pausing_first.workers
    ≤ may_hold 0 pausing_first.log (lookup 7 pausing_first.jobs)
Reach-Held_example = Reach-Held 0 world 1 (part_file ∷ []) reached_pausing 7
