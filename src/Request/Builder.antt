-- ===== src/Request/Builder.antt =====
-- request.rs: the builder of a request. `HeaderValue::from_str` and `HeaderMap::insert` are parameters.
use download_manager.Base.{ℕ, String, Bool, false, Option, none, some, List, []}
use download_manager.Error.{Result, ok, err, invalid_header_value, invalid_request}
use download_manager.Storage.Paths.{FilePath}
use download_manager.Request.{DownloadConfig, Request}

-- What `derive_builder` makes of the configuration: a field that is not set is none.
pub record DownloadConfigBuilder : Type 0 where
  pub retries : Option ℕ
  pub overwrite : Option Bool
  pub headers : List (String × String)

pub record RequestBuilder : Type 0 where
  pub url : Option String
  pub destination : FilePath
  pub config : DownloadConfigBuilder

unfoldable pub default_config : DownloadConfig
default_config = record { retries = 3; overwrite = false; headers = [] }

unfoldable pub builder : String → FilePath → RequestBuilder
builder url destination = record {
  url = some url;
  destination = destination;
  config = record { retries = none; overwrite = none; headers = [] };
}

unfoldable pub set_retries : ℕ → RequestBuilder → RequestBuilder
set_retries retries b = record b { config = record b.config { retries = some retries } }

unfoldable pub set_overwrite : Bool → RequestBuilder → RequestBuilder
set_overwrite overwrite b = record b { config = record b.config { overwrite = some overwrite } }

abbrev pub or_else : {A : Type 0} → Option A → A → A
or_else none default = default
or_else (some a) default = a

-- A configuration whose fields all have defaults always builds.
unfoldable pub build_config : DownloadConfigBuilder → DownloadConfig
unfolding default_config
build_config config = record {
  retries = or_else config.retries default_config.retries;
  overwrite = or_else config.overwrite default_config.overwrite;
  headers = config.headers;
}

unfoldable pub build : RequestBuilder → Result Request
unfolding build_config
build b = elim b.url [
  | none ↦ err (invalid_request "URL must be set")
  | some url ↦
      ok (record { url = url; destination = b.destination; config = build_config b.config })
]

unfoldable pub url : Request → String
url request = request.url

unfoldable pub destination : Request → FilePath
destination request = request.destination

module _ (value_error : String → Option String)
    (insert : String → String → List (String × String) → List (String × String)) where
  unfoldable pub config_header :
      (name value : String) → DownloadConfigBuilder → Result DownloadConfigBuilder
  config_header name value config = elim (value_error value) [
    | none ↦ ok (record config { headers = insert name value config.headers })
    | some source ↦ err (invalid_header_value value source)
  ]

  unfoldable pub header : (name value : String) → RequestBuilder → Result RequestBuilder
  unfolding config_header
  header name value b = elim (config_header name value b.config) [
    | ok config ↦ ok (record b { config = config })
    | err error ↦ err error
  ]

  unfoldable pub user_agent : String → RequestBuilder → Result RequestBuilder
  unfolding header
  user_agent = header "user-agent"
