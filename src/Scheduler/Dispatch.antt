-- ===== src/Scheduler/Dispatch.antt =====
-- scheduler.rs: `try_dispatch` fills the places and no more, and no queued job is forgotten.
use Prim.Native.Nat.{max}
use download_manager.Base.{
  ℕ, zero, suc, ◌+◌, ◌≤◌, ◌≡◌, ◌⊎◌, Bool, false, [], arith, ltb, nil_of_length, length,
  length-append, List-cases, Bool-cases, inl, inr, refl, ap,
}
use download_manager.Scheduler.State.{Scheduler}
use download_manager.Scheduler.Transition.{on_dispatch}
use download_manager.Scheduler.Loop.{dispatch_loop, try_dispatch}
use download_manager.Scheduler.Rounds.{dispatch_loop_induction}

module _ {W : Type 0} where
  on_dispatch_workers :
      (id : ℕ) (s : Scheduler W)
      → (length (on_dispatch id s).workers ≤ length s.workers + 1)
        × ((on_dispatch id s).max_concurrent ≡ s.max_concurrent)
        × ((on_dispatch id s).ready ≡ s.ready)
  unfolding on_dispatch
  on_dispatch_workers id s = grind (arith, length-append)

  -- Dispatching never takes the number of workers beyond the limit, unless it was beyond before.
  pub try_dispatch-bound :
      (is_cancelled : ℕ → Bool) (s : Scheduler W)
      → length (try_dispatch is_cancelled s).workers ≤ max (length s.workers) s.max_concurrent
  unfolding try_dispatch
  try_dispatch-bound is_cancelled s =
      (dispatch_loop_induction
        (λ t.
          (length t.workers ≤ max (length s.workers) s.max_concurrent)
          × (t.max_concurrent ≡ s.max_concurrent))
        is_cancelled (λ _ id rest t _ _ h. h)
        (λ id rest t room _ h. ground (arith, on_dispatch_workers id (record t { ready = rest })))
        (length s.ready) s (omega arith, refl)).0

  dispatch_loop_fills :
      (fuel : ℕ) (is_cancelled : ℕ → Bool) (s : Scheduler W)
      → ((n : ℕ) → is_cancelled n ≡ false)
      → length s.ready ≤ fuel
      → let t = dispatch_loop fuel is_cancelled s in
        (t.max_concurrent ≤ length t.workers) ⊎ (t.ready ≡ [])
  unfolding dispatch_loop
  dispatch_loop_fills zero is_cancelled s live enough = inr (nil_of_length s.ready (omega arith))
  dispatch_loop_fills (suc fuel) is_cancelled s live enough =
      elim (Bool-cases (ltb (length s.workers) s.max_concurrent)) [
        | inr full ↦ ground arith
        | inl room ↦ elim (List-cases s.ready) [
          | inl idle ↦ ground arith
          | inr (id, rest, waits) ↦
              let t = on_dispatch id (record s { ready = rest }) in
              rw (room, waits, live fuel, dispatch_loop)
                (dispatch_loop_fills fuel is_cancelled t live (
                  ground
                    (arith, ap length waits, on_dispatch_workers id (record s { ready = rest }))))
        ]
      ]

  -- Unless the root token is cancelled, dispatching stops only when all places are taken or nothing
  -- waits: its fuel is enough.
  pub try_dispatch_fills :
      (is_cancelled : ℕ → Bool) (s : Scheduler W)
      → ((n : ℕ) → is_cancelled n ≡ false)
      → let t = try_dispatch is_cancelled s in
        (t.max_concurrent ≤ length t.workers) ⊎ (t.ready ≡ [])
  unfolding try_dispatch
  try_dispatch_fills is_cancelled s live =
      dispatch_loop_fills (length s.ready) is_cancelled s live (omega arith)
