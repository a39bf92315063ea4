-- ===== src/Storage/PartFile.antt =====
-- storage/file.rs: the `.part` file with its manifest.
pub mod Laws
pub mod Durable
pub mod Recorded
pub mod Uses
pub mod Opening
pub mod Position
pub mod Synced
pub mod Saved
pub mod Contents
pub mod Keeping
use download_manager.Base.{
  ℕ, ◌-◌, ◌*◌, Bool, true, false, Option, none, some, List, leb, if◌then◌else◌,
}
use download_manager.Error.{Result, ok, err}
use download_manager.Io.{Io, pure, attempt, ◌>>=◌, ◌>>◌}
use download_manager.Storage.Paths.{FilePath, part_path, manifest_path}
use download_manager.Storage.FileSystem.{FileSystem, IoResult, Bytes}
use download_manager.Storage.Manifest.{Manifest, resume_offset, set_contiguous}
use download_manager.Storage.Sidecar.{Json, save}

pub record PartFile : Type 0 where
  pub dest : FilePath
  pub file : ℕ
  pub dirty : Bool
  pub manifest : Manifest

-- A part file that is open, and the disk: the state of the methods on `&mut self`.
pub record Opened (W : Type 0) : Type 0 where
  pub part : PartFile
  pub disk : W

abbrev pub checkpoint_bytes : ℕ
checkpoint_bytes = 4 * 1024 * 1024

module _ {W : Type 0} (fs : FileSystem W) where
  -- `dest.parent()` is `None` for a path with no name.
  abbrev pub create_parent : FilePath → Io W (Unit {0})
  create_parent dest = elim dest.file_name [
    | none ↦ pure tt
    | some _ ↦ attempt (fs.create_dir_all dest.parent)
  ]

  unfoldable pub open_at : FilePath → ℕ → Manifest → Io W PartFile
  open_at dest offset manifest = do
    create_parent dest
    file ← attempt (fs.open_file (part_path dest))
    attempt (fs.set_len file offset)
    attempt (fs.seek file offset)
    pure (record { dest = dest; file = file; dirty = false; manifest = manifest })

  -- A call on the disk that reads the part file.
  abbrev pub on_disk : {A : Type 0} → (PartFile → Io W A) → Io (Opened W) A
  on_disk call s = let (r, disk') = call s.part s.disk in (r, record s { disk = disk' })

  abbrev pub modify : (PartFile → PartFile) → Io (Opened W) (Unit {0})
  modify f s = (ok tt, record s { part = f s.part })

  module _ (json : Json) where
    unfoldable pub checkpoint_dirty : Io (Opened W) (Unit {0})
    checkpoint_dirty = do
      written ← on_disk (λ part. attempt (fs.stream_position part.file))
      on_disk (λ part. attempt (fs.sync_data part.file))
      modify (λ part. record part { manifest = set_contiguous written part.manifest })
      on_disk (λ part. save fs json part.manifest part.dest)
      modify (λ part. record part { dirty = false })

    unfoldable pub checkpoint : Io (Opened W) (Unit {0})
    unfolding checkpoint_dirty
    checkpoint s = if s.part.dirty then checkpoint_dirty s else (ok tt, s)

    -- `written.saturating_sub(resume_offset)` is the subtraction of ℕ.
    unfoldable pub write : Bytes → Io (Opened W) (Unit {0})
    unfolding checkpoint
    write buf = do
      on_disk (λ part. attempt (fs.write_all part.file buf))
      modify (λ part. record part { dirty = true })
      written ← on_disk (λ part. attempt (fs.stream_position part.file))
      λ s.
          if leb checkpoint_bytes (written - resume_offset s.part.manifest)
          then checkpoint s
          else (ok tt, s)

  -- The removal of the manifest may fail.
  unfoldable pub finalize : PartFile → Io W FilePath
  finalize part = do
    attempt (fs.sync_all part.file)
    attempt (fs.rename (part_path part.dest) part.dest)
    λ disk. (ok part.dest, (fs.remove_file (manifest_path part.dest) disk).1)
