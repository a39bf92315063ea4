-- ===== src/Request.antt =====
-- request.rs: the request.
pub mod Builder
use download_manager.Base.{ℕ, String, Bool, List}
use download_manager.Storage.Paths.{FilePath}

-- `headers` is the `HeaderMap`: names with values, one value to a name.
pub record DownloadConfig : Type 0 where
  pub retries : ℕ
  pub overwrite : Bool
  pub headers : List (String × String)

pub record Request : Type 0 where
  pub url : String
  pub destination : FilePath
  pub config : DownloadConfig
