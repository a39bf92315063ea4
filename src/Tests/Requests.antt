-- ===== src/Tests/Requests.antt =====
-- Requests that are built, and texts of events.
use download_manager.Base.{◌≡◌, refl, true, none, some, []}
use download_manager.Error.{ok, err, invalid_header_value}
use download_manager.Events.{retry_scheduled}
use download_manager.Events.Text.{event_text, kind_text}
use download_manager.Request.Builder.{
  build, builder, build_config, default_config, set_retries, set_overwrite, header, user_agent,
}
use download_manager.Worker.Number.{show_u64, parse_u64}
use download_manager.Tests.World.{destination, request}

builds_defaults : build (builder "https://example.com/file.bin" destination) ≡ ok request
unfolding build builder build_config default_config
builds_defaults = refl

keeps_the_last_setting :
    build (set_retries 5 (set_overwrite true (set_retries 4 (builder "u" destination))))
    ≡ ok (record {
      url = "u";
      destination = destination;
      config = record { retries = 5; overwrite = true; headers = [] };
    })
unfolding build builder build_config default_config set_retries set_overwrite
keeps_the_last_setting = refl

refuses_a_value :
    user_agent (λ value. some "bad") (λ name value headers. headers) "a" (builder "u" destination)
    ≡ err (invalid_header_value "a" "bad")
unfolding user_agent header
refuses_a_value = refl

text_of_a_retry :
    event_text (λ id. "id") (record { id = 7; kind = retry_scheduled 2 4000 })
    ≡ "[id]: Retrying: attempt 2 in 4000 ms"
unfolding event_text kind_text show_u64
text_of_a_retry = refl

numbers :
    (parse_u64 "007" ≡ some 7)
    × (parse_u64 "+12" ≡ some 12)
    × (parse_u64 "18446744073709551615" ≡ some 18446744073709551615)
    × (parse_u64 "18446744073709551616" ≡ none)
    × (parse_u64 "" ≡ none)
    × (show_u64 18446744073709551615 ≡ "18446744073709551615")
unfolding parse_u64 show_u64
numbers = (refl, refl, refl, refl, refl, refl)
