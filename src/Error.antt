-- ===== src/Error.antt =====
-- error.rs
use Prim.Native.String.{◌++◌}
use download_manager.Base.{ℕ, String, Bool, true, false, Option, none, some}
use download_manager.Http.{StatusCode}
use download_manager.Storage.Paths
use download_manager.Storage.Paths.{FilePath}
use download_manager.Storage.FileSystem.{IoError}

-- `source` of an invalid header value is kept as its text.
pub data Error : Type 0 where
  network : String → Error
  http_status : ℕ → Error
  io : IoError → Error
  cancelled : Error
  retries_exhausted : Error → Error
  manager_shutdown : Error
  file_exists : FilePath → Error
  invalid_header_value : String → String → Error
  invalid_request : String → Error
  invalid_config : String → Error
  command_queue_full : Error
  command_channel_closed : Error
  invalid_url : String → Error
  unknown : String → Error

pub data Result {ℓ} (A : Type ℓ) : Type ℓ where
  ok : A → Result A
  err : Error → Result A

-- `ResultExt`: the four methods log the error at their levels, and drop it.
unfoldable pub logged {ℓ} : {A : Type ℓ} → Result A → Option A
logged (ok a) = some a
logged (err _) = none

-- `From<http_client::Error>`, on the error's text.
abbrev pub from_client : String → Error
from_client text = network text

-- `From<SendError>`.
abbrev pub from_send : Error
from_send = command_channel_closed

module _ (http : StatusCode) where
  -- The retry class of an error.
  unfoldable pub is_retryable : Error → Bool
  is_retryable (network _) = true
  is_retryable (http_status status) = http.is_server_error status
  is_retryable cancelled = false
  is_retryable (io _) = false
  is_retryable _ = false

  -- `Display`.
  unfoldable pub to_string : Error → String
  to_string (network message) = "Network error: " ++ message
  to_string (http_status status) = "HTTP request failed with status " ++ http.text status
  to_string (io error) = "I/O error: " ++ error.message
  to_string cancelled = "Download was cancelled"
  to_string (retries_exhausted last_error) = "Retry limit exceeded: " ++ to_string last_error
  to_string manager_shutdown = "Download manager has been shut down"
  to_string (file_exists path) = "File already exists: " ++ Paths.display path
  to_string (invalid_header_value value source) =
      "Invalid header value `" ++ (value ++ ("`: " ++ source))
  to_string (invalid_request message) = "Invalid request: " ++ message
  to_string (invalid_config message) = "Invalid configuration: " ++ message
  to_string command_queue_full = "Download manager command queue is full"
  to_string command_channel_closed = "Download manager command channel is closed"
  to_string (invalid_url message) = "Invalid URL: " ++ message
  to_string (unknown message) = "Unknown error: " ++ message
