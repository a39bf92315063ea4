-- ===== src/Tests/World.antt =====
-- A disk in memory and the other things that the program takes from outside.
use text.Mathlib.Text.{◌==◌ as str_eq}
use download_manager.Base.{
  String, Bool, true, false, Option, none, some, List, [], ◌∷◌, ◌&&◌, leb, ltb, if◌then◌else◌,
  lookup, insert, erase,
}
use download_manager.Http.{StatusCode}
use download_manager.Storage.Paths.{FilePath, with_added_extension}
use download_manager.Storage.Discard.{discard_partial}
use download_manager.Error.{is_retryable}
use download_manager.Job.Methods
use download_manager.Job.Methods.{finalize, notify}
use download_manager.Storage.FileSystem.{
  FileSystem, IoError, IoResult, done, failed, not_found, other,
}
use download_manager.Request.{Request}
use download_manager.Scheduler.State.{Env, new, schedule, cancel_job}
use download_manager.Scheduler.Backoff.{next_delay}
use download_manager.Scheduler.Transition.{
  transition_job, on_dispatch, on_pause, on_resume, on_cancel, on_worker, on_retry_elapsed,
}
use download_manager.Scheduler.Loop.{round, shut_down}

abbrev pub same_name : Option String → Option String → Bool
same_name none none = true
same_name (some a) (some b) = str_eq a b
same_name _ _ = false

abbrev pub same_path : FilePath → FilePath → Bool
same_path a b = str_eq a.parent b.parent && same_name a.file_name b.file_name

-- The files that there are.
abbrev pub Disk : Type 0
Disk = List FilePath

abbrev pub has : FilePath → Disk → Bool
has path [] = false
has path (file ∷ files) = if same_path file path then true else has path files

abbrev pub removed : FilePath → Disk → Disk
removed path [] = []
removed path (file ∷ files) =
    if same_path file path then removed path files else file ∷ removed path files

abbrev pub remove_file : FilePath → Disk → IoResult (Unit {0}) × Disk
remove_file path disk =
    if has path disk
    then (done tt, removed path disk)
    else (failed (record { kind = not_found; message = "no such file" }), disk)

abbrev unsupported : IoError
unsupported = record { kind = other; message = "unsupported" }

-- The scheduler only removes files.
abbrev pub memory : FileSystem Disk
memory = record {
  metadata = λ path disk. (failed unsupported, disk);
  read = λ path disk. (failed unsupported, disk);
  write = λ path bytes disk. (failed unsupported, disk);
  rename = λ from to disk. (failed unsupported, disk);
  remove_file = remove_file;
  create_dir_all = λ path disk. (failed unsupported, disk);
  open_file = λ path disk. (failed unsupported, disk);
  set_len = λ file len disk. (failed unsupported, disk);
  seek = λ file position disk. (failed unsupported, disk);
  write_all = λ file bytes disk. (failed unsupported, disk);
  stream_position = λ file disk. (failed unsupported, disk);
  sync_data = λ file disk. (failed unsupported, disk);
  sync_all = λ file disk. (failed unsupported, disk);
}

abbrev pub statuses : StatusCode
statuses = record {
  text = λ status. "status";
  is_success = λ status. leb 200 status && ltb status 300;
  is_server_error = λ status. leb 500 status && ltb status 600;
}

abbrev pub world : Env Disk
world = record { http = statuses; fs = memory; id_text = λ id. "id" }

abbrev pub destination : FilePath
destination = record { parent = "dir/"; file_name = some "file.bin" }

abbrev pub part_file : FilePath
part_file = record { parent = "dir/"; file_name = some "file.bin.part" }

abbrev pub request : Request
request = record {
  url = "https://example.com/file.bin";
  destination = destination;
  config = record { retries = 3; overwrite = false; headers = [] };
}

-- A test that runs the scheduler unfolds this name.
unfoldable pub running : Unit {0}
unfolding round new schedule lookup insert erase transition_job on_dispatch on_pause on_resume
    on_cancel on_worker on_retry_elapsed Methods.pause Methods.retry finalize notify is_retryable
    next_delay shut_down cancel_job discard_partial with_added_extension
running = tt
