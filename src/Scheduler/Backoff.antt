-- ===== src/Scheduler/Backoff.antt =====
-- scheduler.rs: `ExponentialBackoff`. A `Duration` is a number of nanoseconds. `none` is a panic.
pub mod Delays
use download_manager.Base.{
  ℕ, ◌+◌, ◌-◌, ◌*◌, ◌/◌, ◌%◌, ◌^◌, ◌≡◌, refl, Option, none, some, ltb, leb, min, if◌then◌else◌,
  ◌||◌,
}
use mathlib.Core.Option

-- `Duration` holds fewer than 2^64 seconds.
abbrev pub duration_limit : ℕ
duration_limit = 18446744073709551616 * 1_000_000_000

abbrev seconds : ℕ → ℕ
seconds n = n * 1_000_000_000

-- The nearest number of nanoseconds, a tie going to the even one.
round_div : ℕ → ℕ → ℕ
round_div d n =
    if ltb (2 * (d % n)) n
    then d / n
    else if ltb n (2 * (d % n))
    then d / n + 1
    else d / n + (d / n) % 2

pub shrink : ℕ → ℕ → ℕ
unfolding round_div
shrink d k = round_div d (2 ^ k)

-- `d.mul_f64(2f64.powi(attempt as i32))`. The cast makes an exponent from 2^31 on negative. From
-- 2^1024 on the factor is infinite. `mul_f64` panics if the product is no `Duration`. `f64` is exact
-- here for a `d` of fewer than 2^53 whole seconds, such as the program's own.
mul_power : ℕ → ℕ → Option ℕ
mul_power d attempt =
    if leb 2147483648 attempt
    then some (shrink d (4294967296 - attempt))
    else if leb 1024 attempt || leb duration_limit (d * 2 ^ attempt)
    then none
    else some (d * 2 ^ attempt)

pub record ExponentialBackoff : Type 0 where
  pub base_delay : ℕ
  pub max_delay : ℕ

unfoldable pub next_delay : ExponentialBackoff → ℕ → Option ℕ
unfolding mul_power
next_delay backoff attempt =
    Option.map (λ delay. min delay backoff.max_delay) (mul_power backoff.base_delay attempt)

abbrev pub backoff_strategy : ExponentialBackoff
backoff_strategy = record { base_delay = seconds 1; max_delay = seconds 10 }

test_backoff : ExponentialBackoff
test_backoff = record { base_delay = seconds 1; max_delay = seconds 8 }

grows_and_caps :
    (next_delay test_backoff 0 ≡ some (seconds 1))
    × (next_delay test_backoff 3 ≡ some (seconds 8))
    × (next_delay test_backoff 10 ≡ some (seconds 8))
    × (next_delay test_backoff 64 ≡ none)
unfolding next_delay test_backoff
grows_and_caps = (refl, refl, refl, refl)
