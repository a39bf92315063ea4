-- ===== src/Scheduler/Reach.antt =====
-- scheduler.rs: the states between two rounds of `run`.
use download_manager.Base.{ℕ, ◌≡◌, ◌<◌, none, some, Bool, lookup, tally, bit, ◌==◌}
use download_manager.Scheduler.State.{Env, Scheduler, SchedulerCmd, enqueue}
use download_manager.Scheduler.Loop.{Next, command, round}

-- A timer that goes back to an id.
abbrev pub timer_of : ℕ → ℕ × ℕ → ℕ
timer_of i (id, attempt) = bit (id == i)

-- Ids are drawn by `Uuid::new_v4`: an enqueued job has one that nothing in the scheduler carries.
-- `retries` is a `u32`.
abbrev pub FreshCommand : {W : Type 0} → SchedulerCmd → Scheduler W → Type 0
FreshCommand (enqueue id request _ _) s =
    (lookup id s.jobs ≡ none)
    × (tally (timer_of id) s.delayed ≡ 0)
    × (request.config.retries < 4294967296)
FreshCommand _ s = Unit {0}

abbrev pub Fresh : {W : Type 0} → Next → Scheduler W → Type 0
Fresh (command cmd) s = FreshCommand cmd s
Fresh _ s = Unit {0}

-- The states that rounds lead to from `start`.
pub data Reach {W : Type 0} (env : Env W) (start : Scheduler W) : Scheduler W → Type 0 where
  here : Reach env start start
  step :
      {s t : Scheduler W} (next : Next) (is_cancelled : ℕ → Bool)
      → Reach env start s
      → Fresh next s
      → round env next is_cancelled s ≡ some t
      → Reach env start t

-- A property of states that every round keeps holds in all that are reached.
pub Reach-induction :
    {W : Type 0} (env : Env W) (P : Scheduler W → Type 0)
    → ((next : Next) (is_cancelled : ℕ → Bool) (s t : Scheduler W)
        → P s
        → Fresh next s
        → round env next is_cancelled s ≡ some t
        → P t)
    → {start s : Scheduler W} → P start
    → Reach env start s
    → P s
Reach-induction env P keep h here = h
Reach-induction env P keep h (step next is_cancelled r fresh e) =
    keep next is_cancelled _ _ (Reach-induction env P keep h r) fresh e

pub Reach-trans :
    {W : Type 0} (env : Env W) {start s t : Scheduler W}
    → Reach env start s
    → Reach env s t
    → Reach env start t
Reach-trans env r here = r
Reach-trans env r (step next is_cancelled onward fresh e) =
    step next is_cancelled (Reach-trans env r onward) fresh e
