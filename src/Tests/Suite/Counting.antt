-- ===== src/Tests/Suite/Counting.antt =====
-- The tests of events.rs. Times are in nanoseconds, and rates are fractions.
use download_manager.Base.{
  ℕ, ◌+◌, ◌-◌, ◌*◌, Bool, true, false, ◌&&◌, not, Option, none, some, ◌≡◌, refl, ◌==◌, ltb,
}
use download_manager.Storage.Manifest.{is_some}
use download_manager.Events.Progress.{
  Float, min_sample_bytes, new, add, force_update, recompute, percent, eta, bytes_downloaded,
  total_bytes, bytes_per_second,
}

record Fraction : Type 0 where
  num : ℕ
  den : ℕ

abbrev over : ℕ → ℕ → Fraction
over num den = record { num = num; den = den }

abbrev same_fraction : Fraction → Fraction → Bool
same_fraction a b = (a.num * b.den) == (b.num * a.den)

-- `mix` at the fifth that the program uses.
abbrev fractions : Float Fraction
fractions = record {
  zero = over 0 1;
  hundred = over 100 1;
  alpha = over 1 5;
  of_u64 = λ n. over n 1;
  seconds = λ n. over n 1_000_000_000;
  quotient = λ a b. over (a.num * b.den) (a.den * b.num);
  product = λ a b. over (a.num * b.num) (a.den * b.den);
  mix = λ a x y.
      over (a.num * (x.num * y.den) + (a.den - a.num) * (y.num * x.den)) (a.den * (x.den * y.den));
  is_positive = λ x. ltb 0 x.num;
  is_at_most_zero = λ x. not (ltb 0 x.num);
  from_secs = λ x. x.num;
}

abbrev is_at : ℕ → Option Fraction → Bool
is_at n none = false
is_at n (some x) = same_fraction x (over n 1)

abbrev samples_after_byte_threshold : Bool
samples_after_byte_threshold =
    let progress = new fractions 0 0 none in
    let (early, counted) = add fractions 0 1024 progress in
    let (due, sampled) = add fractions 0 (min_sample_bytes - 1024) counted in
    not early
    && (due
        && ((bytes_downloaded fractions sampled == min_sample_bytes)
            && (not (is_some (total_bytes fractions sampled))
                && (not (is_some (percent fractions sampled))
                    && not (is_some (eta fractions sampled))))))

-- The last sample was a second ago.
abbrev resumed_progress_updates_rate_percent_and_eta : Bool
resumed_progress_updates_rate_percent_and_eta =
    let now : ℕ = 1_000_000_000 in
    let progress = record (new fractions now 25 (some 100)) { last_sample_at = 0 } in
    let (due, sampled) = add fractions now 25 progress in
    due
    && ((bytes_downloaded fractions sampled == 50)
        && (is_at 50 (percent fractions sampled)
            && (fractions.is_positive (bytes_per_second fractions sampled)
                && is_some (eta fractions sampled))))

counts :
    (samples_after_byte_threshold ≡ true) × (resumed_progress_updates_rate_percent_and_eta ≡ true)
unfolding new add force_update recompute percent eta bytes_downloaded total_bytes bytes_per_second
counts = (refl, refl)
