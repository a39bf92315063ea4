-- ===== src/Events/Progress/Sampling.antt =====
-- events.rs: what `Progress::add` counts and when it samples.
use download_manager.Base.{ℕ, ◌+◌, ◌-◌, ◌^◌, ◌≤◌, ◌<◌, ◌≡◌, arith}
use download_manager.Events.Progress.{
  Float, Progress, add64, sub64, min_sample_bytes, min_sample_interval, recompute, force_update,
  add,
}

module _ {F : Type 0} (float : Float F) where
  -- A sample changes the rates only.
  recompute_lem :
      (dt byte_delta : ℕ) (p : Progress F) → ((recompute float dt byte_delta p).bytes ≡ p.bytes)
  unfolding recompute
  recompute_lem dt byte_delta p = ground arith

  -- If no sample lies beyond the count, and the sum is a u64, then adding counts every byte once,
  -- and afterwards less than 64 KiB and less than 200 ms have gone by since the last sample.
  pub add_lem :
      (now n : ℕ) (p : Progress F)
      → p.last_sample_bytes ≤ p.bytes
      → p.bytes + n < 2 ^ 64
      → ((add float now n p).1.bytes ≡ p.bytes + n)
        × (((add float now n p).1.last_sample_bytes ≤ (add float now n p).1.bytes)
            × (((add float now n p).1.bytes - (add float now n p).1.last_sample_bytes
                  < min_sample_bytes)
                × (now - (add float now n p).1.last_sample_at < min_sample_interval)))
  unfolding add force_update
  add_lem now n p h k =
      let counted = record p { bytes = add64 p.bytes n } in
      ground (
        arith,
        recompute_lem (now - p.last_sample_at) (sub64 counted.bytes p.last_sample_bytes) counted,
      )
