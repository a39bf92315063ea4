-- ===== src/Tests/Transferring.antt =====
-- A transfer that resumes a part file, and the theorems on the worker applied there.
use text.Mathlib.Text.{◌==◌ as str_eq}
use download_manager.Base.{
  inl, ℕ, ◌+◌, ◌-◌, ◌*◌, ◌/◌, ◌<◌, ◌≤◌, ◌≡◌, refl, true, false, none, some, [], ◌∷◌, arith,
  if◌then◌else◌, leb, ltb,
}
use download_manager.Error.{ok, err, file_exists}
use download_manager.Request.{Request}
use download_manager.Storage.Sidecar.{load, part_len}
use download_manager.Storage.PartFile.{PartFile, finalize, open_at}
use download_manager.Storage.PartFile.Position.{Advances}
use download_manager.Storage.Manifest.{is_resumable_for, validator}
use download_manager.Events.Progress.{
  Float, Progress, min_sample_bytes, min_sample_interval, new, add, force_update, recompute,
}
use download_manager.Events.Progress.Sampling.{add_lem}
use download_manager.Worker.Client.{
  HttpCrate, Response, get_request, with_header, new_request, content_length, response_header,
}
use download_manager.Worker.Number.{show_u64, parse_u64}
use download_manager.Worker.Transfer.{
  Body, Transfer, interrupted, ended, more, transfer, count_read, send_progress, finish,
}
use download_manager.Worker.Transfer.Counting.{size}
use download_manager.Worker.Run.{
  WorkerEnv, Peer, responds, run, prepare, check_destination, load_prior, offset_of, respond, ask,
  begin_transfer, open_transfer, new_manifest, start_of, transfer_all,
}
use download_manager.Worker.Run.Finished.{run_lem}
use download_manager.Worker.Run.Starting.{Starts, prepare-Starts}
use download_manager.Worker.Transfer.Stopping.{Preserves, transfer-Preserves}
use download_manager.Tests.World.{destination, statuses, request}
use download_manager.Tests.Drive.{
  Drive, drive, shown, ranges_only, ranges_only-Readable, drive-Laws, drive-OpenLaws,
}
use download_manager.Tests.Storing.{storing, opened}

-- Rates in whole numbers.
abbrev pub whole : Float ℕ
whole = record {
  zero = 0;
  hundred = 100;
  alpha = 5;
  of_u64 = λ n. n;
  seconds = λ n. n;
  quotient = λ a b. a / b;
  product = λ a b. a * b;
  mix = λ a x y. (x + 4 * y) / a;
  is_positive = λ x. ltb 0 x;
  is_at_most_zero = λ x. leb x 0;
  from_secs = λ x. x;
}

abbrev pub crate : HttpCrate
crate = record {
  get_error = λ url. none;
  value_error = λ value. none;
  insert = λ name value headers. (name, value) ∷ headers;
}

abbrev pub env : WorkerEnv ℕ Drive
env = record { http = statuses; crate = crate; json = ranges_only; fs = drive; float = whole }

abbrev pub overwriting : Request
overwriting = record request { config = record { retries = 3; overwrite = true; headers = [] } }

abbrev partial_content : Response
partial_content = record {
  status = 206;
  header = λ name.
      if str_eq name "content-length"
      then some (some "3")
      else if str_eq name "etag"
      then some (some "abc")
      else none;
}

abbrev pub peer : Peer
peer = record {
  stop_requested = λ n. false;
  send = λ n http_request. responds partial_content;
  body = more 10 7 (8 ∷ []) (more 20 9 [] ended);
  started = 0;
  ended = 30;
}

abbrev pub part : PartFile
part = record {
  dest = destination;
  file = 3;
  dirty = false;
  manifest = record {
    url = "https://example.com/file.bin";
    etag = some "abc";
    last_modified = none;
    total_length = some 5;
    completed_ranges = record { start = 0; end = 2 } ∷ [];
  };
}

abbrev pub progress : Progress ℕ
progress = record {
  bytes = 2;
  total = some 5;
  started_at = 0;
  last_sample_at = 0;
  last_sample_bytes = 2;
  instantaneous_bps = 0;
  ema_bps = 0;
}

-- A test that runs the worker unfolds this name.
unfoldable pub working : Unit {0}
unfolding storing finalize open_at load part_len is_resumable_for validator new add force_update
    recompute get_request with_header new_request content_length response_header show_u64 parse_u64
    transfer count_read send_progress finish run prepare check_destination load_prior offset_of
    respond ask begin_transfer open_transfer new_manifest start_of transfer_all
working = tt

begun : (prepare env peer overwriting opened.disk).0 ≡ ok (some (part, progress))
unfolding working
begun = refl

-- The request asks for the rest, if the file is still the same.
asks_for_the_rest :
    get_request crate overwriting 2 (some part.manifest)
    ≡ ok (record {
      url = "https://example.com/file.bin";
      headers = ("if-range", "abc") ∷ ("range", "bytes=2-") ∷ [];
    })
unfolding working
asks_for_the_rest = refl

keeps_what_is_there : (run env peer request opened.disk).0 ≡ err (file_exists destination)
unfolding working
keeps_what_is_there = refl

pub drive-Advances : Advances shown drive 3
drive-Advances bytes w e = refl

run_lem_example : (destination ≡ destination) × (5 ≡ 2 + size peer.body)
unfolding working
run_lem_example =
    run_lem env shown ranges_only-Readable peer overwriting opened.disk {part = part}
      {progress = progress} {result = record { path = destination; bytes_downloaded = 5 }}
      drive-OpenLaws drive-Laws drive-Advances begun (omega arith) refl

add_lem_example :
    ((add whole 10 3 progress).1.bytes ≡ 5)
    × (((add whole 10 3 progress).1.last_sample_bytes ≤ (add whole 10 3 progress).1.bytes)
        × (((add whole 10 3 progress).1.bytes - (add whole 10 3 progress).1.last_sample_bytes
              < min_sample_bytes)
            × (10 - (add whole 10 3 progress).1.last_sample_at < min_sample_interval)))
add_lem_example = add_lem whole 10 3 progress (omega arith) (omega arith)

prepare-Starts_example : Starts env peer overwriting opened.disk 2
prepare-Starts_example =
    prepare-Starts env peer overwriting opened.disk {part = part} {progress = progress} begun

-- Five bytes are counted, and the file stands there.
abbrev under_way : Transfer ℕ Drive
under_way = record { opened = opened; progress = record progress { bytes = 5 }; sent = [] }

abbrev stopping : Body
stopping = more 10 7 [] interrupted

transfer-Preserves_example :
    Preserves whole drive shown ranges_only ranges_only-Readable destination
      (5 + size stopping)
      (transfer whole drive ranges_only stopping under_way).1.opened
unfolding working
transfer-Preserves_example =
    transfer-Preserves whole drive shown ranges_only ranges_only-Readable stopping destination 3
      under_way drive-Laws drive-Advances ((refl, refl), refl) (inl refl) (omega arith) refl
