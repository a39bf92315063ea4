-- ===== src/Tests/Cancelling.antt =====
-- A paused download with a part file on disk is cancelled.
use download_manager.Base.{◌≡◌, refl, ◌⊎◌, false, Bool-cases, some, [], ◌∷◌, inl, inr}
use download_manager.Error.{err, io}
use download_manager.Error
use download_manager.Job.{Job}
use download_manager.Job
use download_manager.Job.Methods.{finalize}
use download_manager.Storage.Paths.{FilePath, part_path, manifest_path}
use download_manager.Storage.FileSystem.{IoError, other}
use download_manager.Scheduler.State.{cancel_job}
use download_manager.Scheduler.Cleanup.{RemoveLaws, cancel_job-cleans}
use download_manager.Tests.World.{
  Disk, memory, world, has, removed, remove_file, same_path, request,
}
use download_manager.Tests.Scheduling.{start}

has-removed : (path : FilePath) (disk : Disk) → has path (removed path disk) ≡ false
has-removed path [] = refl
has-removed path (file ∷ files) = elim (Bool-cases (same_path file path)) [
  | inl same ↦ rw same (has-removed path files)
  | inr differs ↦ rw differs (rw differs (has-removed path files))
]

removed_makes_nothing :
    (path at : FilePath) (disk : Disk) → has at disk ≡ false → has at (removed path disk) ≡ false
removed_makes_nothing path at [] h = refl
removed_makes_nothing path at (file ∷ files) h = elim (Bool-cases (same_path file at)) [
  | inl same ↦ let impossible = rw same at h in cc
  | inr differs ↦
      let rest = removed_makes_nothing path at files (rw differs at h) in
      elim (Bool-cases (same_path file path)) [
        | inl goes ↦ rw goes rest
        | inr stays ↦ rw stays (rw differs rest)
      ]
]

-- A file that is there is removed, and one that is not is reported.
remove_file-has :
    (path : FilePath) (disk : Disk)
    → (has path (remove_file path disk).1 ≡ false)
      × ((at : FilePath) → has at disk ≡ false → has at (remove_file path disk).1 ≡ false)
remove_file-has path disk = elim (Bool-cases (has path disk)) [
  | inl there ↦ rw there (has-removed path disk, λ at. removed_makes_nothing path at disk)
  | inr absent ↦ rw absent (absent, λ at h. h)
]

memory-RemoveLaws : RemoveLaws memory has
memory-RemoveLaws = record {
  removed_done = λ path w e. (remove_file-has path w).0;
  removed_missing = λ path w {error} e k. (remove_file-has path w).0;
  makes_nothing = λ path at w. (remove_file-has path w).1 at;
}

abbrev paused_job : Job
paused_job = record {
  id = 7;
  request = request;
  progress_tx = 70;
  attempt = 0;
  result = some 71;
  state = Job.paused;
}

cancel_job-cleans_example :
    let t = cancel_job world paused_job start in
    ((t.log ≡ finalize world.http paused_job (err Error.cancelled) start.log)
      × (has (part_path request.destination) t.disk ≡ false)
      × (has (manifest_path request.destination) t.disk ≡ false))
    ⊎ ((error : IoError) × (error.kind ≡ other)
        × (t.log ≡ finalize world.http paused_job (err (io error)) start.log))
cancel_job-cleans_example = cancel_job-cleans world has memory-RemoveLaws paused_job start
