-- ===== src/Tests/Delivering.antt =====
-- A download that resumes two bytes of three, and finishes with three more.
use download_manager.Base.{ℕ, ◌≡◌, refl, none, some, [], ◌∷◌, ◌++◌, length}
use download_manager.Error.{ok}
use download_manager.Storage.FileSystem.{Bytes}
use download_manager.Worker.Run.{WorkerEnv, prepare, run}
use download_manager.Worker.Run.Delivering.{run-delivers}
use download_manager.Tests.World.{destination, statuses}
use download_manager.Tests.Drive.{ranges_only, ranges_only-Readable}
use download_manager.Tests.Tape.{
  Tape, tape, seen, bytes_at, tape-Laws, tape-OpenLaws, tape-KeepLaws, tape-Advances, tape-Texts,
}
use download_manager.Tests.Transferring.{crate, whole, overwriting, peer, part, progress, working}

-- Two bytes are recorded, and a third is not.
abbrev found_tape : Tape
found_tape = record {
  manifest = some (0 ∷ 2 ∷ []);
  written_beside = none;
  part = 1 ∷ 2 ∷ 99 ∷ [];
  finished = none;
  stands = 0;
  synced = 2;
}

abbrev tape_env : WorkerEnv ℕ Tape
tape_env = record { http = statuses; crate = crate; json = ranges_only; fs = tape; float = whole }

begun_on_tape : (prepare tape_env peer overwriting found_tape).0 ≡ ok (some (part, progress))
unfolding working
begun_on_tape = refl

abbrev kept : Bytes
kept = 1 ∷ 2 ∷ []

run-delivers_example :
    (length kept ≡ 2)
    × (seen.contents destination (run tape_env peer overwriting found_tape).1.0
        ≡ some (kept ++ 7 ∷ 8 ∷ 9 ∷ []))
unfolding working
run-delivers_example =
    run-delivers tape_env seen bytes_at ranges_only-Readable peer overwriting found_tape
      {part = part} {progress = progress}
      {result = record { path = destination; bytes_downloaded = 5 }} tape-OpenLaws tape-Laws
      tape-Texts tape-KeepLaws tape-Advances begun_on_tape refl
