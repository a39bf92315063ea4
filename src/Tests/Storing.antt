-- ===== src/Tests/Storing.antt =====
-- A part file that is written and checkpointed, and the theorems applied there.
use download_manager.Base.{◌-◌, ◌*◌, ◌<◌, ◌≡◌, refl, true, none, some, [], ◌∷◌, arith, tally}
use download_manager.Error.{ok}
use download_manager.Storage.Paths.{manifest_path, part_path, with_added_extension}
use download_manager.Storage.Manifest.{find_next, resume_loop, resume_offset, set_contiguous}
use download_manager.Storage.Manifest.Resume.{
  covers, resume_offset-covered, resume_offset-find_next,
}
use download_manager.Storage.Sidecar.{save, load}
use download_manager.Storage.PartFile.{
  Opened, checkpoint, checkpoint_dirty, write, open_at, finalize,
}
use download_manager.Storage.PartFile.Laws.{claim}
use download_manager.Storage.PartFile.Durable.{Backed}
use download_manager.Storage.PartFile.Recorded.{Recorded, checkpoint-Recorded, write-bound}
use download_manager.Storage.PartFile.Opening.{open_at-claim}
use download_manager.Storage.PartFile.Uses.{writes, checkpoints, uses, uses-Backed}
use download_manager.Tests.World.{destination}
use download_manager.Tests.Drive.{
  Drive, drive, shown, blank, ranges_only, ranges_only-Readable, drive-Laws, drive-OpenLaws,
}

-- Two bytes are checkpointed, and the file holds three more that are not.
abbrev pub opened : Opened Drive
opened = record {
  part = record {
    dest = destination;
    file = 3;
    dirty = true;
    manifest = blank (record { start = 0; end = 2 } ∷ []);
  };
  disk = record {
    manifest = some (0 ∷ 2 ∷ []);
    written_beside = none;
    stands = 5;
    size = 5;
    synced = 2;
  };
}

opened-Backed : Backed shown ranges_only destination 3 opened.disk
unfolding claim resume_offset resume_loop find_next manifest_path part_path with_added_extension
opened-Backed = (omega arith, omega arith)

-- A test that runs the storage unfolds this name.
unfoldable pub storing : Unit {0}
unfolding checkpoint checkpoint_dirty write save claim resume_offset resume_loop find_next
    set_contiguous manifest_path part_path with_added_extension
storing = tt

uses-Backed_example :
    Backed shown ranges_only destination 3
      (uses drive ranges_only
        (writes (7 ∷ []) ∷ checkpoints ∷ writes (8 ∷ 9 ∷ []) ∷ [])
        opened).disk
uses-Backed_example =
    uses-Backed drive ranges_only shown ranges_only-Readable
      (writes (7 ∷ []) ∷ checkpoints ∷ writes (8 ∷ 9 ∷ []) ∷ []) opened drive-Laws opened-Backed

write-bound_example :
    shown.position 3 (write drive ranges_only (7 ∷ 8 ∷ []) opened).1.disk
      - resume_offset (write drive ranges_only (7 ∷ 8 ∷ []) opened).1.part.manifest
    < 4 * 1024 * 1024
unfolding storing
write-bound_example =
    write-bound shown ranges_only drive ranges_only-Readable opened (7 ∷ 8 ∷ []) drive-Laws refl

checkpoint-Recorded_example :
    Recorded shown ranges_only drive ranges_only-Readable 3 opened
      (checkpoint drive ranges_only opened).1
unfolding storing
checkpoint-Recorded_example =
    checkpoint-Recorded shown ranges_only drive ranges_only-Readable opened drive-Laws refl refl

resume_offset-covered_example : 0 < tally (covers 1) opened.part.manifest.completed_ranges
unfolding storing
resume_offset-covered_example = resume_offset-covered opened.part.manifest 1 (omega arith)

resume_offset-find_next_example :
    find_next (resume_offset opened.part.manifest) opened.part.manifest.completed_ranges ≡ none
resume_offset-find_next_example = resume_offset-find_next opened.part.manifest

-- A checkpoint is read back by `load`, and the renamed file has the name without `.part`.
loads_what_was_saved :
    (load drive ranges_only destination (checkpoint drive ranges_only opened).1.disk).0
    ≡ some (blank (record { start = 0; end = 5 } ∷ []))
unfolding storing load
loads_what_was_saved = refl

finalizes : (finalize drive opened.part opened.disk).0 ≡ ok destination
unfolding finalize manifest_path part_path with_added_extension
finalizes = refl

opens_at_two : (open_at drive destination 2 opened.part.manifest opened.disk).1.stands ≡ 2
unfolding open_at part_path with_added_extension
opens_at_two = refl

-- Opened at 0, as after an answer that starts over: no byte is left, and two are claimed.
open_at-claim_example :
    (shown.len 3 (open_at drive destination 0 (blank []) opened.disk).1 ≡ 0)
    × (claim ranges_only (
          shown.contents
            (manifest_path destination)
            (open_at drive destination 0 (blank []) opened.disk).1)
        ≡ claim ranges_only (shown.contents (manifest_path destination) opened.disk))
unfolding storing open_at
open_at-claim_example =
    open_at-claim shown drive ranges_only destination 0 (blank []) opened.disk drive-OpenLaws refl

claims_two : claim ranges_only (shown.contents (manifest_path destination) opened.disk) ≡ 2
unfolding storing
claims_two = refl
