-- ===== src/Events/Progress.antt =====
-- events.rs: `Progress`. The time is given in nanoseconds, and the arithmetic of `f64` is a parameter.
pub mod Sampling
use download_manager.Base.{
  ℕ, ◌+◌, ◌-◌, ◌*◌, ◌%◌, ◌^◌, Bool, true, false, ◌&&◌, ◌||◌, Option, none, some, leb, ltb,
  if◌then◌else◌,
}

-- `quotient a b` is `a as f64 / b`, `mix a x y` is `a * x + (1.0 - a) * y`, and `seconds` reads a
-- duration; `from_secs` gives the duration of a number of seconds, without the panic of
-- `from_secs_f64` on what is no duration.
pub record Float (F : Type 0) : Type 0 where
  pub zero : F
  pub hundred : F
  pub alpha : F
  pub of_u64 : ℕ → F
  pub seconds : ℕ → F
  pub quotient : F → F → F
  pub product : F → F → F
  pub mix : F → F → F → F
  pub is_positive : F → Bool
  pub is_at_most_zero : F → Bool
  pub from_secs : F → ℕ

pub record Progress (F : Type 0) : Type 0 where
  pub bytes : ℕ
  pub total : Option ℕ
  pub started_at : ℕ
  pub last_sample_at : ℕ
  pub last_sample_bytes : ℕ
  pub instantaneous_bps : F
  pub ema_bps : F

abbrev pub min_sample_bytes : ℕ
min_sample_bytes = 64 * 1024

abbrev pub min_sample_interval : ℕ
min_sample_interval = 200 * 1000 * 1000

-- `u64`.
abbrev pub add64 : ℕ → ℕ → ℕ
add64 a b = (a + b) % 2 ^ 64

abbrev pub sub64 : ℕ → ℕ → ℕ
sub64 a b = (a + 2 ^ 64 - b) % 2 ^ 64

module _ {F : Type 0} (float : Float F) where
  unfoldable pub new : (now starting_bytes : ℕ) → Option ℕ → Progress F
  new now starting_bytes total = record {
    bytes = starting_bytes;
    total = total;
    started_at = now;
    last_sample_at = now;
    last_sample_bytes = starting_bytes;
    instantaneous_bps = float.zero;
    ema_bps = float.zero;
  }

  unfoldable pub recompute : (dt byte_delta : ℕ) → Progress F → Progress F
  recompute dt byte_delta progress =
      let inst = float.quotient (float.of_u64 byte_delta) (float.seconds dt) in
      if float.is_positive (float.seconds dt) && ltb 0 byte_delta
      then record progress {
        instantaneous_bps = inst;
        ema_bps =
            if float.is_at_most_zero progress.ema_bps
            then inst
            else float.mix float.alpha inst progress.ema_bps;
      }
      else progress

  -- `duration_since` is 0 where the other instant is later.
  unfoldable pub force_update : (now : ℕ) → Progress F → Progress F
  unfolding recompute
  force_update now progress =
      let byte_delta = sub64 progress.bytes progress.last_sample_bytes in
      record (recompute (now - progress.last_sample_at) byte_delta progress) {
        last_sample_at = now;
        last_sample_bytes = progress.bytes;
      }

  abbrev pub is_due : (now : ℕ) → Progress F → Bool
  is_due now progress =
      leb min_sample_interval (now - progress.last_sample_at)
      || leb min_sample_bytes (sub64 progress.bytes progress.last_sample_bytes)

  -- The flag says whether a sample was taken, which is what `force_update` does.
  unfoldable pub add : (now n : ℕ) → Progress F → Bool × Progress F
  unfolding force_update
  add now n progress =
      let counted = record progress { bytes = add64 progress.bytes n } in
      if is_due now counted then (true, force_update now counted) else (false, counted)

  unfoldable pub bytes_downloaded : Progress F → ℕ
  bytes_downloaded progress = progress.bytes

  unfoldable pub total_bytes : Progress F → Option ℕ
  total_bytes progress = progress.total

  unfoldable pub bytes_per_second : Progress F → F
  bytes_per_second progress = progress.ema_bps

  unfoldable pub eta : Progress F → Option ℕ
  eta progress = elim progress.total [
    | none ↦ none
    | some total ↦
        if float.is_positive progress.ema_bps
        then some (
            float.from_secs
              (float.quotient (float.of_u64 (total - progress.bytes)) progress.ema_bps))
        else none
  ]

  unfoldable pub percent : Progress F → Option F
  percent progress = elim progress.total [
    | none ↦ none
    | some total ↦
        if ltb 0 total
        then some (
            float.product (float.quotient (float.of_u64 progress.bytes) (float.of_u64 total))
              float.hundred)
        else none
  ]

  unfoldable pub elapsed : (now : ℕ) → Progress F → ℕ
  elapsed now progress = now - progress.started_at
