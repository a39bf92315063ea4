-- ===== src/Context.antt =====
-- context.rs: what the scheduler, its workers and the manager share.
use download_manager.Base.{ℕ, Bool, true, false}

-- `async_broadcast`: a channel of a capacity, and the settings of its sender.
pub record Broadcasts (S R I : Type 0) : Type 0 where
  pub broadcast : (capacity : ℕ) → S × R
  pub set_overflow : Bool → S → S
  pub set_await_active : Bool → S → S
  pub deactivate : R → I
  pub new_receiver : S → R

-- `cancel_root` says whether the root token is cancelled; the client is any value.
pub record Context (C S I : Type 0) : Type 0 where
  pub cancel_root : Bool
  pub client : C
  pub events : S
  pub events_guard : I

module _ {C S R I : Type 0} (crate : Broadcasts S R I) where
  unfoldable pub new : C → Context C S I
  new client =
      let (events, receiver) = crate.broadcast 1024 in
      record {
        cancel_root = false;
        client = client;
        events = crate.set_await_active false (crate.set_overflow true events);
        events_guard = crate.deactivate receiver;
      }

-- `cancel` of the root token, from which every worker's token descends.
unfoldable pub cancel : {C S I : Type 0} → Context C S I → Context C S I
cancel ctx = record ctx { cancel_root = true }
