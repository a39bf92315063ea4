-- ===== src/Scheduler/Order.antt =====
-- scheduler.rs: `try_dispatch` starts the ids of `ready` from the front, each in turn.
use download_manager.Base.{
  take, drop, take_nil, drop_nil, ℕ, zero, suc, ◌-◌, ◌≤◌, ◌≡◌, Bool, false, some, List, [], ◌∷◌,
  ◌++◌, map, arith, ltb, ltb→lt, nil_of_length, length, length-append, List-cases, ==_self,
  Bool-cases, inl, inr, refl, ap, sym, ◌∙◌,
}
use mathlib.Core.List.{append-nil, append_assoc}
use download_manager.Scheduler.State.{Env, Scheduler, Worker, new}
use download_manager.Scheduler.Transition.{on_dispatch}
use download_manager.Scheduler.Loop.{Next, dispatch_loop, try_dispatch, on_next, round}
use download_manager.Scheduler.Placed
use download_manager.Scheduler.Placed.{Placed}
use download_manager.Scheduler.Reach.{Fresh, Reach}
use download_manager.Scheduler.Rounds.{
  AllPlaced, Reach-Placed, popped-Placed, popped_once, on_next-Placed,
}

map-append {ℓ ℓ'} :
    {A : Type ℓ} {B : Type ℓ'} (f : A → B) (xs ys : List A)
    → map f (xs ++ ys) ≡ map f xs ++ map f ys
map-append f [] ys = refl
map-append f (x ∷ xs) ys = ap (λ zs. f x ∷ zs) (map-append f xs ys)

module _ {W : Type 0} where
  -- The downloads that have a worker, in the order in which they got it.
  abbrev pub served : Scheduler W → List ℕ
  served s = map (λ (w : Worker). w.id) s.workers

  -- How many places are free.
  abbrev pub room : Scheduler W → ℕ
  room s = s.max_concurrent - length s.workers

  on_dispatch_starts :
      (id : ℕ) (rest : List ℕ) (s : Scheduler W)
      → s.ready ≡ id ∷ rest
      → Placed id s
      → let t = on_dispatch id (record s { ready = rest }) in
        (served t ≡ served s ++ id ∷ [])
        × (t.ready ≡ rest)
        × (t.max_concurrent ≡ s.max_concurrent)
        × (length t.workers ≡ suc (length s.workers))
  unfolding on_dispatch
  on_dispatch_starts id rest s e p = grind (arith, p.waits, ==_self id, length-append, map-append)

  -- What dispatching has done to the places and to `ready` when it leaves the first `k` ids to run.
  abbrev pub Starts : ℕ → Scheduler W → Scheduler W → Type 0
  Starts k s t = (served t ≡ served s ++ take k s.ready) × (t.ready ≡ drop k s.ready)

  dispatched-AllPlaced :
      (id : ℕ) (rest : List ℕ) (s : Scheduler W)
      → s.ready ≡ id ∷ rest
      → AllPlaced s
      → AllPlaced (on_dispatch id (record s { ready = rest }))
  dispatched-AllPlaced id rest s waits all i =
      Placed.on_dispatch-Placed i (record s { ready = rest })
        (popped-Placed i id rest s waits (all i)) id (popped_once id rest s waits (all id))

  dispatch_loop-Starts :
      (fuel : ℕ) (is_cancelled : ℕ → Bool) (s : Scheduler W)
      → ((n : ℕ) → is_cancelled n ≡ false)
      → AllPlaced s
      → length s.ready ≤ fuel
      → Starts (room s) s (dispatch_loop fuel is_cancelled s)
  unfolding dispatch_loop
  dispatch_loop-Starts zero is_cancelled s live all enough =
      let idle = nil_of_length s.ready (omega arith) in
      rw (idle, take_nil (room s), drop_nil (room s)) (sym (append-nil _), refl)
  dispatch_loop-Starts (suc fuel) is_cancelled s live all enough =
      elim (Bool-cases (ltb (length s.workers) s.max_concurrent)) [
        | inr full ↦
            let none_free : room s ≡ 0 = ground arith in
            rw (full, dispatch_loop, none_free) (sym (append-nil _), refl)
        | inl free ↦ elim (List-cases s.ready) [
          | inl idle ↦
              rw (free, idle, dispatch_loop, take_nil (room s), drop_nil (room s))
                (sym (append-nil _), idle)
          | inr (id, rest, waits) ↦
              let t = on_dispatch id (record s { ready = rest }) in
              let (joins, left, limit, longer) = on_dispatch_starts id rest s waits (all id) in
              let (front, back) =
                dispatch_loop-Starts fuel is_cancelled t live
                  (dispatched-AllPlaced id rest s waits all)
                  (omega (arith, ap length waits, ap length left)) in
              let one_less : room s ≡ suc (room t) =
                omega (arith, ltb→lt _ _ free, limit, longer) in
              rw (free, waits, live fuel, dispatch_loop, one_less)
                (
                  front
                      ∙ (ap (λ (ids : List ℕ). ids ++ take (room t) t.ready) joins
                          ∙ (append_assoc (served s) (id ∷ []) (take (room t) t.ready)
                              ∙ ap (λ ids. served s ++ (id ∷ take (room t) ids)) left)),
                  back ∙ ap (drop (room t)) left,
                )
        ]
      ]

module _ {W : Type 0} (env : Env W) where
  -- While the root token is not found cancelled, a round from a state that rounds with fresh ids lead
  -- to does first what was chosen, and then gives the free places to the ids at the front of `ready`,
  -- in their order, as many as there are places and no more; the rest waits as it did.
  pub Reach-Starts :
      (max_concurrent : ℕ) (disk : W) {s : Scheduler W}
      → Reach env (new max_concurrent disk) s
      → (next : Next) (is_cancelled : ℕ → Bool) {s' : Scheduler W}
      → ((n : ℕ) → is_cancelled n ≡ false)
      → Fresh next s
      → on_next env next s ≡ some s'
      → (t : Scheduler W) × (round env next is_cancelled s ≡ some t)
        × (served t ≡ served s' ++ take (room s') s'.ready)
        × (t.ready ≡ drop (room s') s'.ready)
  unfolding round try_dispatch
  Reach-Starts max_concurrent disk {s} r next is_cancelled {s'} live fresh stepped =
      let all : AllPlaced s = λ i.
        let p = Reach-Placed env max_concurrent disk r i in record { waits = p.0; works = p.1 } in
      let (front, back) =
        dispatch_loop-Starts (length s'.ready) is_cancelled s' live
          (on_next-Placed env next s all fresh stepped) (omega arith) in
      (try_dispatch is_cancelled s', rw stepped refl, front, back)
