-- ===== src/Worker/Client.antt =====
-- worker.rs: requests and responses. The crates `http` and `http_client` are parameters.
pub mod Ranges
use Prim.Native.String.{◌++◌}
use download_manager.Base.{ℕ, String, Option, none, some, List, ltb, if◌then◌else◌}
use download_manager.Error.{Result, ok, err, invalid_header_value, invalid_request}
use download_manager.Request.{Request}
use download_manager.Storage.Manifest.{Manifest, validator}
use download_manager.Worker.Number.{show_u64, parse_u64}

abbrev pub Headers : Type 0
Headers = List (String × String)

pub record HttpRequest : Type 0 where
  pub url : String
  pub headers : Headers

-- `header name` is the header's value, if there is one, and that is its text, if it has one.
pub record Response : Type 0 where
  pub status : ℕ
  pub header : String → Option (Option String)

-- `get_error` is the error of `Request::get(url).body(…)`, and `value_error` that of parsing a
-- header's value; `insert` is `HeaderMap::insert`.
pub record HttpCrate : Type 0 where
  pub get_error : String → Option String
  pub value_error : String → Option String
  pub insert : (name value : String) → Headers → Headers

abbrev pub and_then : {A B : Type 0} → Result A → (A → Result B) → Result B
and_then (ok a) f = f a
and_then (err e) f = err e

module _ (crate : HttpCrate) where
  unfoldable pub with_header : (name value : String) → HttpRequest → Result HttpRequest
  with_header name value request = elim (crate.value_error value) [
    | none ↦ ok (record request { headers = crate.insert name value request.headers })
    | some source ↦ err (invalid_header_value value source)
  ]

  unfoldable pub new_request : Request → Result HttpRequest
  new_request request = elim (crate.get_error request.url) [
    | none ↦ ok (record { url = request.url; headers = request.config.headers })
    | some text ↦ err (invalid_request text)
  ]

  abbrev pub prior_validator : Option Manifest → Option String
  prior_validator none = none
  prior_validator (some manifest) = validator manifest

  abbrev pub with_if_range : Option String → HttpRequest → Result HttpRequest
  with_if_range none http_request = ok http_request
  with_if_range (some value) http_request = with_header "if-range" value http_request

  -- What `send_get` sends.
  unfoldable pub get_request : Request → ℕ → Option Manifest → Result HttpRequest
  unfolding with_header new_request validator show_u64
  get_request request offset prior = and_then (new_request request) λ http_request.
      if ltb 0 offset
      then and_then (with_header "range" ("bytes=" ++ (show_u64 offset ++ "-")) http_request)
          (with_if_range (prior_validator prior))
      else ok http_request

unfoldable pub content_length : Response → Option ℕ
unfolding parse_u64
content_length response = elim (response.header "content-length") [
  | none ↦ none
  | some value ↦ elim value [ none ↦ none | some text ↦ parse_u64 text ]
]

unfoldable pub response_header : Response → String → Option String
response_header response name = elim (response.header name) [ none ↦ none | some value ↦ value ]
