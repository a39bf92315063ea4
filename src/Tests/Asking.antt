-- ===== src/Tests/Asking.antt =====
-- A download that goes on behind two bytes, with a server that reads `Range`.
use text.Mathlib.Text.{◌==◌ as str_eq}
use text.Mathlib.TextEquality.{eq_iff}
use download_manager.Base.{
  ◌≡◌, refl, ap, sym, ℕ, String, Bool-cases, Option, none, some, [], ◌∷◌, inl, inr, arith,
  if◌then◌else◌,
}
use download_manager.Error.{ok}
use download_manager.Storage.Manifest.{Manifest, is_some}
use download_manager.Worker.Client.{Headers, Response}
use download_manager.Worker.Client.Ranges.{MapLaws}
use download_manager.Worker.Run.{Peer, Answer, responds, check_destination, load_prior}
use download_manager.Worker.Run.Asking.{Exchange, Ranged, prepare-Exchange}
use download_manager.Tests.Storing.{opened}
use download_manager.Tests.Transferring.{crate, env, overwriting, peer, part, progress, working}

abbrev find : String → Headers → Option String
find name [] = none
find name ((key, value) ∷ headers) = if str_eq name key then some value else find name headers

crate-MapLaws : MapLaws crate find
crate-MapLaws = record {
  get-insert = λ name value headers.
      ap (λ b. if b then some value else find name headers) ((eq_iff name name).1 refl);
  get-insert-other = λ name other value headers differs. elim (Bool-cases (str_eq name other)) [
    | inl same ↦ absurd (differs ((eq_iff _ _).0 same))
    | inr different ↦ rw different refl
  ];
}

abbrev status_for : Option String → Response
status_for range = record {
  status = if is_some range then 206 else 200;
  header = λ name.
      if str_eq name "content-length"
      then some (some "3")
      else if str_eq name "etag"
      then some (some "abc")
      else none;
}

abbrev ranging : Peer
ranging = record peer { send = λ n sent. responds (status_for (find "range" sent.headers)) }

abbrev status_of : Answer → ℕ
status_of (responds response) = response.status
status_of _ = 0

ranging-Ranged : Ranged env find ranging overwriting
ranging-Ranged n sent response sends part absent =
    let kept = rw absent at sends in
    let whole : response.status ≡ 200 = ap status_of (sym kept) in omega (arith, part, whole)

prepare-Exchange_example :
    (prior : Option Manifest) × ((load_prior env overwriting
        (check_destination env overwriting opened.disk).1).0
      ≡ ok prior)
    × Exchange env find ranging overwriting prior 2
unfolding working
prepare-Exchange_example =
    prepare-Exchange env find ranging overwriting crate-MapLaws refl ranging-Ranged opened.disk
      {part = part} {progress = progress} (λ len e. ground arith) refl
