-- ===== src/Http.antt =====
-- What the program takes from the `http` crate, as parameters.
use download_manager.Base.{ℕ, String, Bool}

-- `http::StatusCode`, a status being its number: its `Display` and its classes.
pub record StatusCode : Type 0 where
  pub text : ℕ → String
  pub is_success : ℕ → Bool
  pub is_server_error : ℕ → Bool
