-- ===== src/Storage/PartFile/Uses.antt =====
-- storage/file.rs: any sequence of calls on an open part file.
use download_manager.Base.{arith, ◌∙◌, ◌≡◌, refl, subst, true, List, [], ◌∷◌, ℕ}
use download_manager.Storage.Paths.{FilePath}
use download_manager.Storage.FileSystem.{FileSystem, Bytes}
use download_manager.Storage.Sidecar.{Json}
use download_manager.Storage.PartFile.{Opened, checkpoint_dirty, checkpoint, write}
use download_manager.Storage.PartFile.Laws.{View, Laws, Readable}
use download_manager.Storage.PartFile.Durable.{Backed, checkpoint-Backed, write-Backed}

-- A call of a method on `&mut self`.
pub data Use : Type 0 where
  writes : Bytes → Use
  checkpoints : Use

module _ {W : Type 0} (fs : FileSystem W) (json : Json) where
  -- The caller may go on after an error.
  unfoldable pub use_part : Use → Opened W → Opened W
  unfolding write checkpoint
  use_part (writes bytes) s = (write fs json bytes s).1
  use_part checkpoints s = (checkpoint fs json s).1

  unfoldable pub uses : List Use → Opened W → Opened W
  unfolding use_part
  uses [] s = s
  uses (u ∷ us) s = uses us (use_part u s)

  abbrev pub For : FilePath → ℕ → Opened W → Type 0
  For dest file s = (s.part.dest ≡ dest) × (s.part.file ≡ file)

  pub carried :
      (P : FilePath → ℕ → Type 0) {dest : FilePath} {file : ℕ} (s : Opened W)
      → For dest file s
      → P s.part.dest s.part.file
      → P dest file
  carried P {dest} {file} s (d, f) p = subst (P dest) f (subst (λ x. P x s.part.file) d p)

  pub checkpoint-For : (s : Opened W) → For s.part.dest s.part.file (checkpoint fs json s).1
  unfolding checkpoint checkpoint_dirty
  checkpoint-For s = ground arith

  pub write-For :
      (s : Opened W) (bytes : Bytes) → For s.part.dest s.part.file (write fs json bytes s).1
  unfolding write
  write-For s bytes =
      let w1 = (fs.write_all s.part.file bytes s.disk).1 in
      let w2 = (fs.stream_position s.part.file w1).1 in
      ground (arith, checkpoint-For (record { part = record s.part { dirty = true }; disk = w2 }))

  use_part-For : (u : Use) (s : Opened W) → For s.part.dest s.part.file (use_part u s)
  unfolding use_part
  use_part-For (writes bytes) s = write-For s bytes
  use_part-For checkpoints s = checkpoint-For s

  module _ (view : View W) (readable : Readable json) where
    use_part-Backed :
        (u : Use) (s : Opened W)
        → Laws view fs s.part.dest s.part.file
        → Backed view json s.part.dest s.part.file s.disk
        → Backed view json s.part.dest s.part.file (use_part u s).disk
    unfolding use_part
    use_part-Backed (writes bytes) s laws h = write-Backed view json fs readable s bytes laws h
    use_part-Backed checkpoints s laws h = checkpoint-Backed view json fs readable s laws h

    uses-Backed_at :
        (us : List Use) (s : Opened W) (dest : FilePath) (file : ℕ)
        → For dest file s
        → Laws view fs dest file
        → Backed view json dest file s.disk
        → Backed view json dest file (uses us s).disk
    unfolding uses
    uses-Backed_at [] s dest file same laws h = h
    uses-Backed_at (u ∷ us) s dest file same laws h =
        let (dest', file') = use_part-For u s in
        uses-Backed_at us (use_part u s) dest file (dest' ∙ same.0, file' ∙ same.1) laws
          (carried
            (λ d f.
              Laws view fs d f
              → Backed view json d f s.disk
              → Backed view json d f (use_part u s).disk)
            s same (use_part-Backed u s) laws h)

    -- Whatever is written and checkpointed, and whatever fails on the way, the manifest on disk
    -- never claims more bytes than a crash would leave; this supposes that it did not before, that
    -- the file stands inside itself, and that the file system and the encoding keep their laws.
    pub uses-Backed :
        (us : List Use) (s : Opened W)
        → Laws view fs s.part.dest s.part.file
        → Backed view json s.part.dest s.part.file s.disk
        → Backed view json s.part.dest s.part.file (uses us s).disk
    uses-Backed us s = uses-Backed_at us s s.part.dest s.part.file (refl, refl)
