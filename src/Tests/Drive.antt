-- ===== src/Tests/Drive.antt =====
-- A disk with one part file and its sidecars, which keeps the laws that a checkpoint relies on.
use download_manager.Base.{
  ℕ, ◌+◌, ◌-◌, ◌≡◌, refl, Bool, Option, none, some, List, [], ◌∷◌, inr, arith, if◌then◌else◌,
  length,
}
use download_manager.Storage.Paths.{FilePath, manifest_path, part_path, with_added_extension}
use download_manager.Storage.FileSystem.{
  FileSystem, IoError, IoResult, Bytes, done, failed, not_found,
}
use download_manager.Storage.Manifest.{ByteRange, Manifest}
use download_manager.Storage.Sidecar.{Json}
use download_manager.Storage.PartFile.Laws.{View, Laws, Readable}
use download_manager.Storage.PartFile.Opening.{OpenLaws}
use download_manager.Tests.World.{same_path, destination}

-- `synced` is the length of the prefix that a crash leaves.
pub record Drive : Type 0 where
  pub manifest : Option Bytes
  pub written_beside : Option Bytes
  pub stands : ℕ
  pub size : ℕ
  pub synced : ℕ

abbrev absent : IoError
absent = record { kind = not_found; message = "no such file" }

abbrev pub is_manifest : FilePath → Bool
is_manifest path = same_path path (manifest_path destination)

abbrev contents : FilePath → Drive → Option Bytes
contents path d = if is_manifest path then d.manifest else d.written_beside

abbrev pub read_from : Option Bytes → IoResult Bytes
read_from none = failed absent
read_from (some bytes) = done bytes

abbrev put : FilePath → Option Bytes → Drive → Drive
put path bytes d =
    if is_manifest path then record d { manifest = bytes } else record d { written_beside = bytes }

abbrev pub drive : FileSystem Drive
drive = record {
  metadata = λ path d. (done d.size, d);
  read = λ path d. (read_from (contents path d), d);
  write = λ path bytes d. (done tt, put path (some bytes) d);
  rename = λ from to d. (done tt, put from none (put to (contents from d) d));
  remove_file = λ path d. (done tt, put path none d);
  create_dir_all = λ path d. (done tt, d);
  open_file = λ path d. (done 3, d);
  set_len = λ file len d. (done tt, record d { size = len; synced = d.synced - (d.synced - len) });
  seek = λ file position d. (done position, record d { stands = position });
  write_all = λ file bytes d. (
    done tt,
    record d {
      stands = d.stands + length bytes;
      size = d.size + (d.stands + length bytes - d.size);
    },
  );
  stream_position = λ file d. (done d.stands, d);
  sync_data = λ file d. (done tt, record d { synced = d.synced + (d.size - d.synced) });
  sync_all = λ file d. (done tt, record d { synced = d.synced + (d.size - d.synced) });
}

abbrev pub shown : View Drive
shown = record {
  contents = contents;
  position = λ file d. d.stands;
  len = λ file d. d.size;
  durable = λ file d. d.synced;
}

-- The ranges of a manifest, and nothing else.
abbrev pub ranges_text : List ByteRange → Bytes
ranges_text [] = []
ranges_text (r ∷ ranges) = r.start ∷ r.end ∷ ranges_text ranges

abbrev pub ranges_of : Bytes → List ByteRange
ranges_of (start ∷ end ∷ bytes) = record { start = start; end = end } ∷ ranges_of bytes
ranges_of _ = []

abbrev pub blank : List ByteRange → Manifest
blank ranges = record {
  url = "https://example.com/file.bin";
  etag = some "abc";
  last_modified = none;
  total_length = none;
  completed_ranges = ranges;
}

abbrev pub ranges_only : Json
ranges_only = record {
  to_vec = λ manifest. inr (ranges_text manifest.completed_ranges);
  from_slice = λ bytes. some (blank (ranges_of bytes));
}

pub ranges_of-ranges_text : (ranges : List ByteRange) → ranges_of (ranges_text ranges) ≡ ranges
ranges_of-ranges_text [] = refl
ranges_of-ranges_text (r ∷ ranges) = rw (ranges_of-ranges_text ranges)

pub ranges_only-Readable : Readable ranges_only
ranges_only-Readable = record {
  reads_back = λ manifest {bytes} e.
      (blank (ranges_of bytes), (refl, cc (ranges_of-ranges_text manifest.completed_ranges)));
}

pub drive-Laws : Laws shown drive destination 3
unfolding manifest_path part_path with_added_extension
drive-Laws = record {
  stream_position_keeps = λ w. refl;
  stream_position_done = λ w p e. cc;
  sync_data_stays = λ w. omega arith;
  sync_data_manifest = λ w. refl;
  sync_data_done = λ w e h. omega arith;
  write_all_keeps = λ bytes w. omega arith;
  write_all_manifest = λ bytes w. refl;
  write_stays = λ bytes w. omega arith;
  write_manifest = λ bytes w. refl;
  write_done = λ bytes w e. refl;
  rename_stays = λ w. omega arith;
  rename_done = λ w e. refl;
  rename_failed = λ w {error} e. cc;
}

pub drive-OpenLaws : OpenLaws shown drive destination
drive-OpenLaws = record {
  create_dir_all_manifest = λ path w. refl;
  open_file_manifest = λ w. refl;
  set_len_manifest = λ file len w. refl;
  set_len_done = λ file len w e. refl;
  seek_manifest = λ file to w. refl;
  seek_done = λ file to place w e. refl;
  seek_len = λ file to w. refl;
}
