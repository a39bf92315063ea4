-- ===== src/Tests/Files.antt =====
-- Files and directories in memory, with at most one open file at a time.
use download_manager.Base.{
  take, drop, ℕ, zero, suc, ◌+◌, ◌-◌, Bool, true, false, Option, none, some, List, [], ◌∷◌, ◌++◌,
  if◌then◌else◌, length,
}
use download_manager.Storage.Paths.{FilePath}
use download_manager.Storage.FileSystem.{
  FileSystem, IoError, IoResult, Bytes, done, failed, not_found, other,
}
use download_manager.Tests.World.{same_path}

pub record Files : Type 0 where
  pub files : List (FilePath × Bytes)
  pub directories : List FilePath
  pub open_path : FilePath
  pub position : ℕ

abbrev pub no_files : Files
no_files = record {
  files = [];
  directories = [];
  open_path = record { parent = ""; file_name = none };
  position = 0;
}

abbrev find : FilePath → List (FilePath × Bytes) → Option Bytes
find path [] = none
find path ((at, bytes) ∷ rest) = if same_path at path then some bytes else find path rest

abbrev removed : FilePath → List (FilePath × Bytes) → List (FilePath × Bytes)
removed path [] = []
removed path ((at, bytes) ∷ rest) =
    if same_path at path then removed path rest else (at, bytes) ∷ removed path rest

abbrev is_directory : FilePath → List FilePath → Bool
is_directory path [] = false
is_directory path (at ∷ rest) = if same_path at path then true else is_directory path rest

abbrev put : FilePath → Bytes → Files → Files
put path bytes f = record f { files = (path, bytes) ∷ removed path f.files }

abbrev zeros : ℕ → Bytes
zeros zero = []
zeros (suc n) = 0 ∷ zeros n

-- What an open file holds after a change.
abbrev change : (Bytes → Bytes) → Files → Files
change g f = elim (find f.open_path f.files) [ none ↦ f | some bytes ↦ put f.open_path (g bytes) f ]

abbrev missing : IoError
missing = record { kind = not_found; message = "no such file" }

abbrev found : {A : Type 0} → (Bytes → A) → Option Bytes → IoResult A
found g none = failed missing
found g (some bytes) = done (g bytes)

abbrev moved : FilePath → FilePath → Option Bytes → Files → IoResult (Unit {0}) × Files
moved from to none f = (failed missing, f)
moved from to (some bytes) f = (done tt, put to bytes (record f { files = removed from f.files }))

abbrev unlinked : FilePath → Option Bytes → Files → IoResult (Unit {0}) × Files
unlinked path none f = (failed missing, f)
unlinked path (some _) f = (done tt, record f { files = removed path f.files })

abbrev created : FilePath → Option Bytes → Files → Files
created path none f = put path [] f
created path (some _) f = f

abbrev pub in_memory : FileSystem Files
in_memory = record {
  metadata = λ path f. (found length (find path f.files), f);
  read = λ path f. (found (λ bytes. bytes) (find path f.files), f);
  write = λ path bytes f. (done tt, put path bytes f);
  rename = λ from to f. moved from to (find from f.files) f;
  remove_file = λ path f.
      if is_directory path f.directories
      then (failed (record { kind = other; message = "is a directory" }), f)
      else unlinked path (find path f.files) f;
  create_dir_all = λ path f. (done tt, f);
  open_file = λ path f.
      (done 3, record (created path (find path f.files) f) { open_path = path; position = 0 });
  set_len =
      λ file len f. (done tt, change (λ bytes. take len bytes ++ zeros (len - length bytes)) f);
  seek = λ file position f. (done position, record f { position = position });
  write_all = λ file bytes f. (
    done tt,
    record (change (λ old. (take f.position old ++ bytes) ++ drop (f.position + length bytes) old)
        f) { position = f.position + length bytes },
  );
  stream_position = λ file f. (done f.position, f);
  sync_data = λ file f. (done tt, f);
  sync_all = λ file f. (done tt, f);
}
