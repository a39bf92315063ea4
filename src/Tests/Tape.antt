-- ===== src/Tests/Tape.antt =====
-- A disk with one download: its manifest and what is written beside it, the bytes of its part file, to
-- which a write appends, and its destination.
use download_manager.Base.{
  take, length-take, ℕ, zero, suc, ◌+◌, ◌-◌, ◌≤◌, ◌≡◌, refl, ap, Bool, Option, none, some, [], ◌∷◌,
  ◌++◌, arith, if◌then◌else◌, length, length-append,
}
use download_manager.Storage.Paths.{FilePath, manifest_path, part_path, with_added_extension}
use download_manager.Storage.FileSystem.{FileSystem, Bytes, done}
use download_manager.Storage.PartFile.Laws.{View, Laws}
use download_manager.Storage.PartFile.Opening.{OpenLaws}
use download_manager.Storage.PartFile.Position.{Advances}
use download_manager.Storage.PartFile.Contents.{Texts}
use download_manager.Storage.PartFile.Keeping.{KeepLaws}
use download_manager.Tests.World.{same_path, destination}
use download_manager.Tests.Drive.{is_manifest, read_from}

pub record Tape : Type 0 where
  pub manifest : Option Bytes
  pub written_beside : Option Bytes
  pub part : Bytes
  pub finished : Option Bytes
  pub stands : ℕ
  pub synced : ℕ

abbrev is_destination : FilePath → Bool
is_destination path = same_path path destination

abbrev is_part : FilePath → Bool
is_part path = same_path path (part_path destination)

abbrev contents : FilePath → Tape → Option Bytes
contents path t =
    if is_manifest path
    then t.manifest
    else if is_destination path
    then t.finished
    else if is_part path
    then some t.part
    else t.written_beside

abbrev put : FilePath → Option Bytes → Tape → Tape
put path bytes t =
    if is_manifest path
    then record t { manifest = bytes }
    else if is_destination path
    then record t { finished = bytes }
    else if is_part path
    then t
    else record t { written_beside = bytes }

abbrev zeros : ℕ → Bytes
zeros zero = []
zeros (suc n) = 0 ∷ zeros n

abbrev cut : ℕ → Bytes → Bytes
cut len bytes = take len (bytes ++ zeros (len - length bytes))

abbrev pub tape : FileSystem Tape
tape = record {
  metadata = λ path t. (done (length t.part), t);
  read = λ path t. (read_from (contents path t), t);
  write = λ path bytes t. (done tt, put path (some bytes) t);
  rename = λ from to t. (done tt, put from none (put to (contents from t) t));
  remove_file = λ path t. (done tt, put path none t);
  create_dir_all = λ path t. (done tt, t);
  open_file = λ path t. (done 3, t);
  set_len = λ file len t. (done tt, record t { part = cut len t.part; synced = 0 });
  seek = λ file position t. (done position, record t { stands = position });
  write_all = λ file bytes t.
      (done tt, record t { part = t.part ++ bytes; stands = t.stands + length bytes });
  stream_position = λ file t. (done t.stands, t);
  sync_data = λ file t. (done tt, record t { synced = t.synced + (length t.part - t.synced) });
  sync_all = λ file t. (done tt, record t { synced = t.synced + (length t.part - t.synced) });
}

abbrev pub bytes_at : ℕ → Tape → Bytes
bytes_at file t = t.part

abbrev pub seen : View Tape
seen = record {
  contents = contents;
  position = λ file t. t.stands;
  len = λ file t. length t.part;
  durable = λ file t. t.synced;
}

pub tape-Laws : Laws seen tape destination 3
unfolding manifest_path part_path with_added_extension
tape-Laws = record {
  stream_position_keeps = λ t. refl;
  stream_position_done = λ t p e. cc;
  sync_data_stays = λ t. omega arith;
  sync_data_manifest = λ t. refl;
  sync_data_done = λ t e h. omega arith;
  write_all_keeps = λ bytes t. omega (arith, length-append t.part bytes);
  write_all_manifest = λ bytes t. refl;
  write_stays = λ bytes t. omega arith;
  write_manifest = λ bytes t. refl;
  write_done = λ bytes t e. refl;
  rename_stays = λ t. omega arith;
  rename_done = λ t e. refl;
  rename_failed = λ t {error} e. cc;
}

length-zeros : (n : ℕ) → length (zeros n) ≡ n
length-zeros zero = refl
length-zeros (suc n) = omega (arith, length-zeros n)

length-cut : (len : ℕ) (bytes : Bytes) → length (cut len bytes) ≡ len
length-cut len bytes = length-take len (bytes ++ zeros (len - length bytes)) (
    omega
      (arith, length-append bytes (zeros (len - length bytes)), length-zeros (len - length bytes)))

pub tape-OpenLaws : OpenLaws seen tape destination
unfolding manifest_path part_path with_added_extension
tape-OpenLaws = record {
  create_dir_all_manifest = λ path t. refl;
  open_file_manifest = λ t. refl;
  set_len_manifest = λ file len t. refl;
  set_len_done = λ file len t e. length-cut len t.part;
  seek_manifest = λ file to t. refl;
  seek_done = λ file to place t e. refl;
  seek_len = λ file to t. refl;
}

take_front : (n : ℕ) (xs ys : Bytes) → n ≤ length xs → take n (xs ++ ys) ≡ take n xs
take_front zero xs ys h = refl
take_front (suc n) [] ys h = absurd (omega arith)
take_front (suc n) (x ∷ xs) ys h = ap (λ zs. x ∷ zs) (take_front n xs ys (omega arith))

pub tape-KeepLaws : KeepLaws seen destination tape bytes_at
unfolding manifest_path part_path with_added_extension
tape-KeepLaws = record {
  metadata_found = λ path t. refl;
  metadata_len = λ t {len} e. ground arith;
  read_found = λ t. refl;
  create_dir_all_found = λ path t. refl;
  open_file_text = λ t e. refl;
  set_len_text = λ file len t e h. take_front len t.part (zeros (len - length t.part)) h;
  seek_text = λ file to t. refl;
}

pub tape-Advances : Advances seen tape 3
tape-Advances bytes t e = refl

pub tape-Texts : Texts seen tape destination 3 bytes_at
unfolding manifest_path part_path with_added_extension
tape-Texts = record {
  len_text = λ t. refl;
  write_all_text = λ bytes t e at_end. refl;
  sync_data_text = λ t. refl;
  sync_all_text = λ t. refl;
  write_text = λ bytes t. refl;
  rename_text = λ t. refl;
  rename_part = λ t e. refl;
  remove_manifest = λ t. refl;
}
