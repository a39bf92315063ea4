-- ===== src/Storage/FileSystem.antt =====
-- The file system that the program reaches through `async_fs`, as a parameter: each call takes the
-- state of the disk and returns the new one. `W` is that state; an open file is a number.
use download_manager.Base.{ℕ, String, List}
use download_manager.Storage.Paths.{FilePath}

-- `std::io::ErrorKind`; the program only tells `NotFound` from the others.
pub data ErrorKind : Type 0 where
  not_found other : ErrorKind

pub record IoError : Type 0 where
  pub kind : ErrorKind
  pub message : String

pub data IoResult {ℓ} (A : Type ℓ) : Type ℓ where
  done : A → IoResult A
  failed : IoError → IoResult A

abbrev pub Bytes : Type 0
Bytes = List ℕ

-- `metadata` gives the length. `open_file` creates, reads and writes, and does not truncate.
pub record FileSystem (W : Type 0) : Type 0 where
  pub metadata : FilePath → W → IoResult ℕ × W
  pub read : FilePath → W → IoResult Bytes × W
  pub write : FilePath → Bytes → W → IoResult (Unit {0}) × W
  pub rename : FilePath → FilePath → W → IoResult (Unit {0}) × W
  pub remove_file : FilePath → W → IoResult (Unit {0}) × W
  pub create_dir_all : String → W → IoResult (Unit {0}) × W
  pub open_file : FilePath → W → IoResult ℕ × W
  pub set_len : (file len : ℕ) → W → IoResult (Unit {0}) × W
  pub seek : (file position : ℕ) → W → IoResult ℕ × W
  pub write_all : (file : ℕ) → Bytes → W → IoResult (Unit {0}) × W
  pub stream_position : (file : ℕ) → W → IoResult ℕ × W
  pub sync_data : (file : ℕ) → W → IoResult (Unit {0}) × W
  pub sync_all : (file : ℕ) → W → IoResult (Unit {0}) × W
