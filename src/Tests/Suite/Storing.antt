-- ===== src/Tests/Suite/Storing.antt =====
-- The tests of storage/mod.rs and storage/manifest.rs.
use download_manager.Base.{
  ℕ, Bool, true, false, ◌&&◌, not, Option, none, some, [], ◌∷◌, inr, ◌≡◌, refl, ◌==◌, min,
}
use download_manager.Error.{Result, ok, err}
use download_manager.Io.{Io, pure, ◌>>=◌}
use download_manager.Storage.Paths.{FilePath, part_path, manifest_path, with_added_extension}
use download_manager.Storage.FileSystem.{IoResult, Bytes, done, failed}
use download_manager.Storage.Manifest.{
  Manifest, resume_offset, set_contiguous, validator, is_resumable_for, is_some, find_next,
  resume_loop,
}
use download_manager.Storage.Sidecar.{Json, load, save, part_len}
use download_manager.Storage.Discard.{discard_partial}
use download_manager.Storage.PartFile.{
  PartFile, Opened, open_at, write, checkpoint, checkpoint_dirty, finalize,
}
use download_manager.Tests.World.{same_name}
use download_manager.Tests.Drive.{ranges_text, ranges_of}
use download_manager.Tests.Files.{Files, no_files, in_memory}

-- `Manifest::default()`.
abbrev empty : Manifest
empty = record {
  url = "";
  etag = none;
  last_modified = none;
  total_length = none;
  completed_ranges = [];
}

abbrev resume_offset_from_contiguous_prefix : Bool
resume_offset_from_contiguous_prefix =
    let m = record empty { url = "http://x/y" } in
    (resume_offset m == 0) && (resume_offset (set_contiguous 40 m) == 40)

abbrev resume_offset_stops_at_first_gap_regardless_of_range_order : Bool
resume_offset_stops_at_first_gap_regardless_of_range_order =
    let manifest = record empty {
      completed_ranges =
          record { start = 40; end = 80 }
          ∷ record { start = 0; end = 20 }
          ∷ record { start = 90; end = 100 }
          ∷ record { start = 20; end = 40 }
          ∷ [];
    } in
    resume_offset manifest == 80

abbrev validator_prefers_etag_then_last_modified : Bool
validator_prefers_etag_then_last_modified =
    let manifest = record empty {
      etag = some "\"v1\"";
      last_modified = some "Mon, 01 Jan 2024 00:00:00 GMT";
    } in
    same_name (validator manifest) (some "\"v1\"")
    && same_name (validator (record manifest { etag = none }))
        (some "Mon, 01 Jan 2024 00:00:00 GMT")

abbrev resume_requires_matching_url_prefix_and_validator : Bool
resume_requires_matching_url_prefix_and_validator =
    let manifest =
      set_contiguous 10 (record empty { url = "https://example.com/file"; etag = some "\"v1\"" }) in
    is_resumable_for manifest "https://example.com/file"
    && (not (is_resumable_for manifest "https://example.com/other")
        && not (is_resumable_for (record manifest { etag = none }) "https://example.com/file"))

abbrev dest : FilePath
dest = record { parent = "/tmp/dm-test/"; file_name = some "file.bin" }

-- Manifests of the test's file. Other bytes are no manifest.
abbrev encoding : Json
encoding = record {
  to_vec = λ manifest. inr (123 ∷ ranges_text manifest.completed_ranges);
  from_slice = parse;
}
  where
    parse : Bytes → Option Manifest
    parse [] = none
    parse (first ∷ bytes) = elim (first == 123) [
      | false ↦ none
      | true ↦ some (record {
        url = "http://example/file";
        etag = some "\"abc\"";
        last_modified = none;
        total_length = some 10;
        completed_ranges = ranges_of bytes;
      })
    ]

abbrev corrupt_manifest_is_treated_as_absent : Bool
corrupt_manifest_is_treated_as_absent =
    let not_json = 110 ∷ 111 ∷ 116 ∷ 45 ∷ 106 ∷ 115 ∷ 111 ∷ 110 ∷ [] in
    let (_, files) = in_memory.write (manifest_path dest) not_json no_files in
    not (is_some (load in_memory encoding dest files).0)

resumes :
    (resume_offset_from_contiguous_prefix ≡ true)
    × (resume_offset_stops_at_first_gap_regardless_of_range_order ≡ true)
    × (validator_prefers_etag_then_last_modified ≡ true)
    × (resume_requires_matching_url_prefix_and_validator ≡ true)
unfolding resume_offset set_contiguous validator is_resumable_for find_next resume_loop
resumes = (refl, refl, refl, refl)

absent_if_corrupt : corrupt_manifest_is_treated_as_absent ≡ true
unfolding load manifest_path part_path with_added_extension
absent_if_corrupt = refl

abbrev is_err {ℓ} : {A : Type ℓ} → Result A → Bool
is_err (ok _) = false
is_err (err _) = true

abbrev is_length : ℕ → Result ℕ → Bool
is_length len (ok found) = found == len
is_length len (err _) = false

abbrev same_bytes : Bytes → Bytes → Bool
same_bytes [] [] = true
same_bytes (a ∷ xs) (b ∷ ys) = (a == b) && same_bytes xs ys
same_bytes _ _ = false

abbrev holds : Bytes → IoResult Bytes → Bool
holds bytes (done found) = same_bytes found bytes
holds bytes (failed _) = false

abbrev hello : Bytes
hello = 104 ∷ 101 ∷ 108 ∷ 108 ∷ 111 ∷ []

abbrev world : Bytes
world = 119 ∷ 111 ∷ 114 ∷ 108 ∷ 100 ∷ []

-- A method of an open part file.
abbrev on_opened : {A : Type 0} → PartFile → Io (Opened Files) A → Io Files (A × PartFile)
on_opened part call files =
    let (result, opened) = call (record { part = part; disk = files }) in
    elim result [ ok a ↦ (ok (a, opened.part), opened.disk) | err error ↦ (err error, opened.disk) ]

-- Five bytes are written and checkpointed, and the file is dropped.
abbrev before_the_crash : Manifest → Io Files (Unit {0})
before_the_crash manifest = do
  part ← open_at in_memory dest 0 manifest
  written ← on_opened part (write in_memory encoding hello)
  checkpointed ← on_opened written.1 (checkpoint in_memory encoding)
  pure tt

-- It goes on from the recorded offset.
abbrev after_the_crash : Manifest → Io Files FilePath
after_the_crash loaded = do
  len ← part_len in_memory dest
  part ← open_at in_memory dest (min (resume_offset loaded) len) loaded
  written ← on_opened part (write in_memory encoding world)
  finalize in_memory written.1

abbrev ends_with_both : Result FilePath × Files → Bool
ends_with_both (err _, files) = false
ends_with_both (ok path, files) =
    holds (104 ∷ 101 ∷ 108 ∷ 108 ∷ 111 ∷ world) (in_memory.read path files).0
    && (not (is_some (load in_memory encoding dest files).0)
        && is_length 0 (part_len in_memory dest files).0)

abbrev checkpoint_then_resume_then_finalize : Bool
checkpoint_then_resume_then_finalize =
    let manifest = record empty {
      url = "http://example/file";
      etag = some "\"abc\"";
      total_length = some 10;
    } in
    let (_, crashed) = before_the_crash manifest no_files in
    elim (load in_memory encoding dest crashed).0 [
      | none ↦ false
      | some loaded ↦
          (resume_offset loaded == 5)
          && (is_some (validator loaded)
              && (is_length 5 (part_len in_memory dest crashed).0
                  && ends_with_both (after_the_crash loaded crashed)))
    ]

abbrev discard_partial_reports_removal_failure : Bool
discard_partial_reports_removal_failure =
    is_err
      (discard_partial in_memory dest (record no_files { directories = part_path dest ∷ [] })).0

survives_a_crash : checkpoint_then_resume_then_finalize ≡ true
unfolding load save manifest_path part_path with_added_extension resume_offset set_contiguous
    validator find_next resume_loop open_at write checkpoint checkpoint_dirty finalize part_len
survives_a_crash = refl

reports_failure : discard_partial_reports_removal_failure ≡ true
unfolding discard_partial part_path with_added_extension
reports_failure = refl
