-- ===== src/Storage/PartFile/Saved.antt =====
-- storage/file.rs: a part file that is clean has on disk the manifest that it has in memory.
use download_manager.Base.{
  ℕ, ◌-◌, ◌≡◌, refl, sym, ap, ◌∙◌, subst, ◌⊎◌, Bool, Option, some, true, inl, inr, Bool-cases, leb,
  String, if◌then◌else◌,
}
use download_manager.Error.{Result, ok}
use download_manager.Storage.Paths.{FilePath, manifest_path}
use download_manager.Storage.FileSystem.{FileSystem, Bytes}
use download_manager.Storage.Manifest.{Manifest, validator, resume_offset, set_contiguous}
use download_manager.Storage.Sidecar.{Json, save}
use download_manager.Storage.PartFile.{
  Opened, checkpoint_bytes, checkpoint, checkpoint_dirty, write,
}
use download_manager.Storage.PartFile.Laws.{View, Laws, Readable}
use download_manager.Storage.PartFile.Durable.{IoResult-cases, Result-cases}
use download_manager.Storage.PartFile.Recorded.{save-contents}

-- `from_slice` reads back the manifest that `to_vec` has written.
pub record Faithful (json : Json) : Type 0 where
  pub reads_back :
      (manifest : Manifest) {bytes : Bytes}
      → json.to_vec manifest ≡ inr bytes
      → json.from_slice bytes ≡ some manifest

pub Faithful-Readable : (json : Json) → Faithful json → Readable json
Faithful-Readable json faithful = record {
  reads_back = λ manifest e. (manifest, (faithful.reads_back manifest e, refl));
}

-- What a manifest says of the remote file.
abbrev pub About : String → Option String → Manifest → Type 0
About url tag manifest = (manifest.url ≡ url) × (validator manifest ≡ tag)

set_contiguous-About :
    {url : String} {tag : Option String} (written : ℕ) (manifest : Manifest)
    → About url tag manifest
    → About url tag (set_contiguous written manifest)
unfolding set_contiguous validator
set_contiguous-About written manifest about = about

module _ {W : Type 0} (view : View W) (json : Json) where
  abbrev pub OnDisk : FilePath → Manifest → W → Type 0
  OnDisk dest manifest w =
      (bytes : Bytes) × (view.contents (manifest_path dest) w ≡ some bytes)
      × (json.from_slice bytes ≡ some manifest)

  -- There is a manifest that is about so and claims so many bytes.
  abbrev pub Left : String → Option String → FilePath → ℕ → W → Type 0
  Left url tag dest n w =
      (manifest : Manifest) × OnDisk dest manifest w
      × About url tag manifest
      × (resume_offset manifest ≡ n)

  -- The manifest is about so, and it is on disk unless a checkpoint is due.
  pub record Saved (url : String) (tag : Option String) (dest : FilePath) (s : Opened W)
      : Type 0 where
    pub about : About url tag s.part.manifest
    pub kept : (s.part.dirty ≡ true) ⊎ OnDisk dest s.part.manifest s.disk

  kept_on :
      (dest : FilePath) (s : Opened W) (w : W)
      → view.contents (manifest_path dest) w ≡ view.contents (manifest_path dest) s.disk
      → (s.part.dirty ≡ true) ⊎ OnDisk dest s.part.manifest s.disk
      → (s.part.dirty ≡ true) ⊎ OnDisk dest s.part.manifest w
  kept_on dest s w untouched (inl dirty) = inl dirty
  kept_on dest s w untouched (inr (bytes, left, reads)) = inr (bytes, untouched ∙ left, reads)

  module _ (fs : FileSystem W) (faithful : Faithful json) (url : String) (tag : Option String) where
    checkpoint_dirty-Saved :
        (s : Opened W)
        → Laws view fs s.part.dest s.part.file
        → s.part.dirty ≡ true
        → About url tag s.part.manifest
        → Saved url tag s.part.dest (checkpoint_dirty fs json s).1
    unfolding checkpoint_dirty
    checkpoint_dirty-Saved s laws dirty about =
        let file = s.part.file in
        let w1 = (fs.stream_position file s.disk).1 in
        let w2 = (fs.sync_data file w1).1 in
        elim (IoResult-cases (fs.stream_position file s.disk).0) [
          | inr (error, e) ↦ rw e (record { about = about; kept = inl dirty })
          | inl (p, e) ↦ elim (IoResult-cases (fs.sync_data file w1).0) [
            | inr (error, e') ↦ rw (e, e') (record { about = about; kept = inl dirty })
            | inl (u, e') ↦
                let manifest = set_contiguous p s.part.manifest in
                let still = set_contiguous-About p s.part.manifest about in
                elim (Result-cases (save fs json manifest s.part.dest w2).0) [
                  | inr (error, e'') ↦ rw (e, e', e'') (record { about = still; kept = inl dirty })
                  | inl (v, e'') ↦
                      let (bytes, written, left) =
                        save-contents view json fs (Faithful-Readable json faithful) s.part.dest
                          file manifest w2 laws e'' in
                      rw (e, e', e'')
                        (record {
                          about = still;
                          kept = inr (bytes, left, faithful.reads_back manifest written);
                        })
                ]
          ]
        ]

    -- A checkpoint keeps it so, also one that fails.
    pub checkpoint-Saved :
        (s : Opened W)
        → Laws view fs s.part.dest s.part.file
        → Saved url tag s.part.dest s
        → Saved url tag s.part.dest (checkpoint fs json s).1
    unfolding checkpoint
    checkpoint-Saved s laws h =
        let P : Result (Unit {0}) × Opened W → Type 0 = λ r. Saved url tag s.part.dest r.1 in
        let whether : Bool → Result (Unit {0}) × Opened W =
          λ b. if b then checkpoint_dirty fs json s else (ok tt, s) in
        elim (Bool-cases s.part.dirty) [
          | inl dirty ↦
              subst P (sym (ap whether dirty)) (checkpoint_dirty-Saved s laws dirty h.about)
          | inr clean ↦ subst P (sym (ap whether clean)) h
        ]

    pub write-Saved :
        (s : Opened W) (bytes : Bytes)
        → Laws view fs s.part.dest s.part.file
        → Saved url tag s.part.dest s
        → Saved url tag s.part.dest (write fs json bytes s).1
    unfolding write
    write-Saved s bytes laws h =
        let file = s.part.file in
        let w1 = (fs.write_all file bytes s.disk).1 in
        let w2 = (fs.stream_position file w1).1 in
        let t : Opened W = record { part = record s.part { dirty = true }; disk = w2 } in
        let due : Saved url tag s.part.dest t = record { about = h.about; kept = inl refl } in
        elim (IoResult-cases (fs.write_all file bytes s.disk).0) [
          | inr (error, e) ↦ rw e (record {
            about = h.about;
            kept = kept_on s.part.dest s w1 (laws.write_all_manifest bytes s.disk) h.kept;
          })
          | inl (u, e) ↦ elim (IoResult-cases (fs.stream_position file w1).0) [
            | inr (error, e') ↦ rw (e, e') due
            | inl (p, e') ↦
                elim (Bool-cases (leb checkpoint_bytes (p - resume_offset s.part.manifest))) [
                  | inl often ↦ rw (e, e', often) (checkpoint-Saved t laws due)
                  | inr later ↦ rw (e, e', later) due
                ]
          ]
        ]
