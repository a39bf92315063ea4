-- ===== src/Download/Listening.antt =====
-- download.rs, `events`: what a listener sees of a download, from when it begins to listen.
use mathlib.Core.List.{append-nil, append_assoc}
use download_manager.Base.{
  ℕ, ◌≡◌, refl, sym, ap, ◌∙◌, length, ltb, Bool, true, false, Bool-cases, ◌&&◌, Option, none, some,
  List, [], ◌∷◌, ◌++◌, arith, ◌==◌, inl, inr, if◌then◌else◌, lookup, some_inj,
}
use download_manager.Events.{Event}
use download_manager.Job.{Log, Effect, broadcast, acknowledge, deliver, cancel_stop, close_commands}
use download_manager.Scheduler.State.{Env, Scheduler, new}
use download_manager.Scheduler.Reach.{Reach, Reach-trans}
use download_manager.Scheduler.Diagram.{Stage, absent, stage}
use download_manager.Scheduler.Observed.{announced, observed, may_emit, orderly}
use download_manager.Scheduler.Observed.Rounds.{Reach-Observed}
use download_manager.Scheduler.Grows.{older, newer}
use download_manager.Scheduler.Grows.Rounds.{Reach-Grows}
use download_manager.Download.{of_id, events}

-- The events that were sent, the oldest first.
abbrev pub sent : Log → List Event
sent [] = []
sent (broadcast event ∷ log) = sent log ++ event ∷ []
sent (_ ∷ log) = sent log

-- A listener that goes from stage to stage, and stops at an event that may not come there.
abbrev pub listen : Stage → List Event → Option Stage
listen at [] = some at
listen at (event ∷ rest) =
    let later = listen (announced event.kind) rest in if may_emit at event.kind then later else none

of_id-append :
    (id : ℕ) (before after : List Event)
    → of_id id (before ++ after) ≡ of_id id before ++ of_id id after
of_id-append id [] after = refl
of_id-append id (first ∷ before) after = ground (arith, of_id-append id before after)

listen-append :
    (from to : Stage) (before : List Event) (event : Event)
    → listen from before ≡ some to
    → may_emit to event.kind ≡ true
    → listen from (before ++ event ∷ []) ≡ some (announced event.kind)
listen-append from to [] event e may = rw (some_inj e, may) refl
listen-append from to (first ∷ before) event e may = elim (Bool-cases (may_emit from first.kind)) [
  | inl goes_on ↦
      rw goes_on (listen-append (announced first.kind) to before event (rw goes_on at e) may)
  | inr stops ↦ let impossible = rw stops at e in cc
]

both-true : (a b : Bool) → a && b ≡ true → (a ≡ true) × (b ≡ true)
both-true true b e = (refl, e)
both-true false b e = cc

listen-sent :
    (id : ℕ) (log : Log)
    → orderly id log ≡ true
    → listen absent (of_id id (sent log)) ≡ some (observed id log)
listen-sent id [] o = refl
listen-sent id (broadcast event ∷ log) o = elim (Bool-cases (event.id == id)) [
  | inl mine ↦
      let (may, before) = both-true _ _ (rw mine at o) in
      rw (of_id-append id (sent log) (event ∷ []), mine)
        (listen-append absent (observed id log) (of_id id (sent log)) event
          (listen-sent id log before) may)
  | inr other ↦
      rw (of_id-append id (sent log) (event ∷ []), other, append-nil)
        (listen-sent id log (rw other at o))
]
listen-sent id (acknowledge a result ∷ log) o = listen-sent id log o
listen-sent id (deliver r result ∷ log) o = listen-sent id log o
listen-sent id (cancel_stop s ∷ log) o = listen-sent id log o
listen-sent id (close_commands ∷ log) o = listen-sent id log o

-- Listening to some events, and then to others.
listen-on :
    (from to : Stage) (before after : List Event)
    → listen from before ≡ some to
    → listen from (before ++ after) ≡ listen to after
listen-on from to [] after e = rw (some_inj e) refl
listen-on from to (first ∷ before) after e = elim (Bool-cases (may_emit from first.kind)) [
  | inl goes_on ↦ rw goes_on (listen-on (announced first.kind) to before after (rw goes_on at e))
  | inr stops ↦ let impossible = rw stops at e in cc
]

abbrev said : Effect → List Event
said (broadcast event) = event ∷ []
said _ = []

sent-cons : (effect : Effect) (log : Log) → sent (effect ∷ log) ≡ sent log ++ said effect
sent-cons (broadcast event) log = refl
sent-cons (acknowledge a result) log = sym (append-nil (sent log))
sent-cons (deliver r result) log = sym (append-nil (sent log))
sent-cons (cancel_stop s) log = sym (append-nil (sent log))
sent-cons close_commands log = sym (append-nil (sent log))

sent-newer : (n : ℕ) (log : Log) → sent log ≡ sent (older n log) ++ sent (newer n log)
sent-newer n [] = refl
sent-newer n (effect ∷ log) = elim (Bool-cases (ltb (length log) n)) [
  | inl before ↦ rw before (sym (append-nil (sent (effect ∷ log))))
  | inr since ↦ rw since (
      sent-cons effect log
      ∙ ap (λ events. events ++ said effect) (sent-newer n log)
      ∙ append_assoc (sent (older n log)) (sent (newer n log)) (said effect)
      ∙ ap (λ events. sent (older n log) ++ events) (sym (sent-cons effect (newer n log))))
]

module _ {W : Type 0} (env : Env W) where
  listen-all :
      (max_concurrent : ℕ) (disk : W) {s : Scheduler W}
      → Reach env (new max_concurrent disk) s
      → (id : ℕ) → listen absent (of_id id (sent s.log)) ≡ some (stage (lookup id s.jobs))
  listen-all max_concurrent disk {s} r id =
      let (seen, ordered) = Reach-Observed env max_concurrent disk r id in
      listen-sent id s.log ordered ∙ ap some seen

  -- Suppose that a handle begins to listen in a state that rounds with fresh ids lead to from the start,
  -- that further such rounds lead to a second state, and that its receiver gives just the events that
  -- were sent in between. Then the events that it yields take a listener, from stage to stage and each
  -- where it may come, from the stage of the download's job in the first state to that in the second.
  pub Reach-listen :
      (receives : (before now : List Event) → List Event) (max_concurrent : ℕ) (disk : W)
      {s t : Scheduler W}
      → Reach env (new max_concurrent disk) s
      → Reach env s t
      → ((later : List Event)
          → sent t.log ≡ sent s.log ++ later
          → receives (sent s.log) (sent t.log) ≡ later)
      → (id : ℕ)
      → listen (stage (lookup id s.jobs)) (events receives id (sent s.log) (sent t.log))
        ≡ some (stage (lookup id t.jobs))
  unfolding events
  Reach-listen receives max_concurrent disk {s} {t} r onward lossless id =
      let later = sent (newer (length s.log) t.log) in
      let grown : sent t.log ≡ sent s.log ++ later =
        sent-newer (length s.log) t.log
        ∙ ap (λ old. sent old ++ later) (Reach-Grows env onward).same in
      ap (λ got. listen (stage (lookup id s.jobs)) (of_id id got)) (lossless later grown)
      ∙ sym (
          listen-on absent (stage (lookup id s.jobs)) (of_id id (sent s.log)) (of_id id later)
            (listen-all max_concurrent disk r id))
      ∙ ap (listen absent) (sym (of_id-append id (sent s.log) later) ∙ ap (of_id id) (sym grown))
      ∙ listen-all max_concurrent disk (Reach-trans env r onward) id
