-- ===== src/Storage/PartFile/Laws.antt =====
-- storage/file.rs: what the part file relies on in the file system.
use download_manager.Base.{ℕ, ◌≤◌, ◌≡◌, Option, none, some, inr}
use download_manager.Storage.Paths.{FilePath, manifest_path}
use download_manager.Storage.FileSystem.{FileSystem, IoError, Bytes, done, failed}
use download_manager.Storage.Manifest.{Manifest, resume_offset}
use download_manager.Storage.Sidecar.{Json, temporary}

-- What the disk shows: the contents of a path, and of an open file where it stands, its length and
-- the length of its prefix that a crash leaves.
pub record View (W : Type 0) : Type 0 where
  pub contents : FilePath → W → Option Bytes
  pub position : ℕ → W → ℕ
  pub len : ℕ → W → ℕ
  pub durable : ℕ → W → ℕ

module _ {W : Type 0} (view : View W) where
  -- An open file has lost nothing that was durable, and stands inside itself if it did before.
  abbrev pub Keeps : ℕ → W → W → Type 0
  Keeps file w w' =
      (view.durable file w ≤ view.durable file w')
      × (view.position file w ≤ view.len file w → view.position file w' ≤ view.len file w')

  -- An open file has not moved either.
  abbrev pub Stays : ℕ → W → W → Type 0
  Stays file w w' =
      (view.durable file w ≤ view.durable file w')
      × ((view.position file w' ≡ view.position file w) × (view.len file w' ≡ view.len file w))

  -- The documented behaviour of `async_fs` for one destination and its open part file.
  pub record Laws (fs : FileSystem W) (dest : FilePath) (file : ℕ) : Type 0 where
    pub stream_position_keeps : (w : W) → (fs.stream_position file w).1 ≡ w
    pub stream_position_done :
        (w : W) (p : ℕ) → (fs.stream_position file w).0 ≡ done p → p ≡ view.position file w
    pub sync_data_stays : (w : W) → Stays file w (fs.sync_data file w).1
    pub sync_data_manifest :
        (w : W)
        → view.contents (manifest_path dest) (fs.sync_data file w).1
          ≡ view.contents (manifest_path dest) w
    pub sync_data_done :
        (w : W)
        → (fs.sync_data file w).0 ≡ done tt
        → view.position file w ≤ view.len file w
        → view.position file w ≤ view.durable file (fs.sync_data file w).1
    pub write_all_keeps : (bytes : Bytes) (w : W) → Keeps file w (fs.write_all file bytes w).1
    pub write_all_manifest :
        (bytes : Bytes) (w : W)
        → view.contents (manifest_path dest) (fs.write_all file bytes w).1
          ≡ view.contents (manifest_path dest) w
    pub write_stays : (bytes : Bytes) (w : W) → Stays file w (fs.write (temporary dest) bytes w).1
    pub write_manifest :
        (bytes : Bytes) (w : W)
        → view.contents (manifest_path dest) (fs.write (temporary dest) bytes w).1
          ≡ view.contents (manifest_path dest) w
    pub write_done :
        (bytes : Bytes) (w : W)
        → (fs.write (temporary dest) bytes w).0 ≡ done tt
        → view.contents (temporary dest) (fs.write (temporary dest) bytes w).1 ≡ some bytes
    pub rename_stays : (w : W) → Stays file w (fs.rename (temporary dest) (manifest_path dest) w).1
    pub rename_done :
        (w : W)
        → (fs.rename (temporary dest) (manifest_path dest) w).0 ≡ done tt
        → view.contents (manifest_path dest) (fs.rename (temporary dest) (manifest_path dest) w).1
          ≡ view.contents (temporary dest) w
    pub rename_failed :
        (w : W) {error : IoError}
        → (fs.rename (temporary dest) (manifest_path dest) w).0 ≡ failed error
        → view.contents (manifest_path dest) (fs.rename (temporary dest) (manifest_path dest) w).1
          ≡ view.contents (manifest_path dest) w

-- `from_slice` reads back the ranges that `to_vec` has written.
pub record Readable (json : Json) : Type 0 where
  pub reads_back :
      (manifest : Manifest) {bytes : Bytes}
      → json.to_vec manifest ≡ inr bytes
      → (read : Manifest) × ((json.from_slice bytes ≡ some read)
          × (read.completed_ranges ≡ manifest.completed_ranges))

-- How far the contents of a manifest's path claim the download to be.
unfoldable pub claim : Json → Option Bytes → ℕ
unfolding resume_offset
claim json none = 0
claim json (some bytes) = elim (json.from_slice bytes) [
  | none ↦ 0
  | some manifest ↦ resume_offset manifest
]
