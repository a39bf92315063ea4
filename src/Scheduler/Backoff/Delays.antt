-- ===== src/Scheduler/Backoff/Delays.antt =====
-- scheduler.rs: the delays of `BACKOFF_STRATEGY`.
use native.Mathlib.Nat.{pow-le-pow_right}
use download_manager.Base.{
  ℕ, ◌*◌, ◌^◌, ◌≤◌, ◌<◌, ◌≡◌, refl, none, some, arith, min, ltb, ltb→lt, if◌then◌else◌, Bool-cases,
  inl, inr,
}
use download_manager.Scheduler.Backoff.{next_delay, backoff_strategy}

delay_of_power :
    (a p : ℕ)
    → 2 ^ a ≡ p
    → a < 64
    → p ≤ 9223372036854775808
    → next_delay backoff_strategy a ≡ some (min (1_000_000_000 * p) 10_000_000_000)
unfolding next_delay
delay_of_power a p e h k = ground arith

panic_of_power :
    (a p : ℕ)
    → 2 ^ a ≡ p
    → a < 2147483648
    → 18446744073709551616 ≤ p
    → next_delay backoff_strategy a ≡ none
unfolding next_delay
panic_of_power a p e h k = ground arith

pow_small : (a : ℕ) → a < 64 → 2 ^ a ≤ 9223372036854775808
pow_small a h = pow-le-pow_right {n = 2} (omega arith) {i = a} {j = 63} (omega arith)

pow_large : (a : ℕ) → 64 ≤ a → 18446744073709551616 ≤ 2 ^ a
pow_large a h = pow-le-pow_right {n = 2} (omega arith) {i = 64} {j = a} h

-- The delay after an attempt below 64 is 2^attempt seconds, and at most ten. From attempt 64 on
-- computing the delay panics. This is said of attempts below 2^31, which the cast to `i32` keeps.
pub next_delay_exact :
    (a : ℕ)
    → a < 2147483648
    → next_delay backoff_strategy a
      ≡ (if ltb a 64 then some (min (1_000_000_000 * 2 ^ a) 10_000_000_000) else none)
next_delay_exact a h = elim (Bool-cases (ltb a 64)) [
  | inl few ↦
      rw few (delay_of_power a (2 ^ a) refl (ltb→lt a 64 few) (pow_small a (ltb→lt a 64 few)))
  | inr many ↦ rw many (panic_of_power a (2 ^ a) refl h (pow_large a (ground arith)))
]
