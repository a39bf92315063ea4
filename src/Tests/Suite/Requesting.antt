-- ===== src/Tests/Suite/Requesting.antt =====
-- The tests of request.rs. `HeaderValue` refuses the value that has a line break.
use text.Mathlib.Text.{◌==◌ as str_eq}
use download_manager.Base.{
  String, Bool, true, false, ◌&&◌, not, Option, none, some, List, [], ◌∷◌, ◌≡◌, refl, ◌==◌,
  if◌then◌else◌,
}
use download_manager.Error.{Result, ok, err, invalid_header_value}
use download_manager.Request.Builder.{
  RequestBuilder, build, builder, build_config, default_config, set_retries, set_overwrite,
  config_header, header, user_agent, url, destination,
}
use download_manager.Storage.Paths.{FilePath}
use download_manager.Tests.World.{same_name, same_path}

abbrev value_error : String → Option String
value_error value =
    if str_eq value "line one\nline two" then some "failed to parse header value" else none

abbrev insert : String → String → List (String × String) → List (String × String)
insert name value headers = (name, value) ∷ headers

abbrev get : String → List (String × String) → Option String
get name [] = none
get name ((at, value) ∷ headers) = if str_eq at name then some value else get name headers

abbrev is_empty : List (String × String) → Bool
is_empty [] = true
is_empty (_ ∷ _) = false

abbrev address : String
address = "https://example.com/file.bin"

abbrev out : FilePath
out = record { parent = ""; file_name = some "out.bin" }

-- `unwrap`, and what is asserted of the value.
abbrev unwraps {ℓ} : {A : Type ℓ} → Result A → (A → Bool) → Bool
unwraps (ok a) asserted = asserted a
unwraps (err _) asserted = false

abbrev builder_preserves_configuration_and_assigns_unique_ids : Bool
builder_preserves_configuration_and_assigns_unique_ids =
    unwraps
      (user_agent value_error insert "download-manager-test"
        (set_overwrite true (set_retries 5 (builder address out))))
      λ b. unwraps (build b) λ request.
        str_eq (url request) address
        && (same_path (destination request) out
            && ((request.config.retries == 5)
                && (request.config.overwrite
                    && same_name (get "user-agent" request.config.headers)
                        (some "download-manager-test"))))

abbrev builder_uses_documented_defaults : Bool
builder_uses_documented_defaults = unwraps (build (builder address out)) λ request.
    (request.config.retries == 3)
    && (not request.config.overwrite && is_empty request.config.headers)

abbrev is_invalid_header_value : Result RequestBuilder → Bool
is_invalid_header_value (err (invalid_header_value _ _)) = true
is_invalid_header_value _ = false

abbrev invalid_header_value_is_reported : Bool
invalid_header_value_is_reported =
    is_invalid_header_value
      (header value_error insert "x-test" "line one\nline two" (builder address out))

builds :
    (builder_preserves_configuration_and_assigns_unique_ids ≡ true)
    × (builder_uses_documented_defaults ≡ true)
    × (invalid_header_value_is_reported ≡ true)
unfolding build builder build_config default_config set_retries set_overwrite config_header header
    user_agent url destination
builds = (refl, refl, refl)
