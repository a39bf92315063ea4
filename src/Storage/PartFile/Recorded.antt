-- ===== src/Storage/PartFile/Recorded.antt =====
-- storage/file.rs: what a write or a checkpoint that returns `Ok` has recorded.
use download_manager.Base.{
  ℕ, ◌<◌, ◌-◌, ◌≡◌, refl, ap, sym, subst, ◌∙◌, if◌then◌else◌, some, true, false, inl, inr, arith,
  Bool-cases, leb,
}
use download_manager.Error.{Result, ok}
use download_manager.Storage.Paths.{FilePath, manifest_path}
use download_manager.Storage.FileSystem.{FileSystem, Bytes}
use download_manager.Storage.Manifest.{Manifest, resume_offset, set_contiguous}
use download_manager.Storage.Manifest.Resume.{resume_offset-set_contiguous}
use download_manager.Storage.Sidecar.{Json, temporary, save}
use download_manager.Storage.PartFile.{
  Opened, checkpoint_bytes, checkpoint_dirty, checkpoint, write,
}
use download_manager.Storage.PartFile.Laws.{View, Laws, Readable, claim}
use download_manager.Storage.PartFile.Durable.{
  IoResult-cases, Sum-cases, Result-cases, claim-written,
}

module _ {W : Type 0} (view : View W) (json : Json) (fs : FileSystem W)
    (readable : Readable json) where
  -- A save that returns `Ok` leaves its manifest.
  pub save-contents :
      (dest : FilePath) (file : ℕ) (manifest : Manifest) (w : W)
      → Laws view fs dest file
      → (save fs json manifest dest w).0 ≡ ok tt
      → (bytes : Bytes) × (json.to_vec manifest ≡ inr bytes)
        × (view.contents (manifest_path dest) (save fs json manifest dest w).1 ≡ some bytes)
  unfolding save
  save-contents dest file manifest w laws saved = elim (Sum-cases (json.to_vec manifest)) [
    | inl (text, e) ↦ let impossible = rw e at saved in cc
    | inr (bytes, e) ↦
        let w1 = (fs.write (temporary dest) bytes w).1 in
        elim (IoResult-cases (fs.write (temporary dest) bytes w).0) [
          | inr (error, e') ↦ let impossible = rw (e, e') at saved in cc
          | inl (u, e') ↦
              elim (IoResult-cases (fs.rename (temporary dest) (manifest_path dest) w1).0) [
                | inr (error, e'') ↦ let impossible = rw (e, e', e'') at saved in cc
                | inl (v, e'') ↦
                    rw (e, e') (bytes, refl, laws.rename_done w1 e'' ∙ laws.write_done bytes w e')
              ]
        ]
  ]

  save-claim :
      (dest : FilePath) (file : ℕ) (manifest : Manifest) (w : W)
      → Laws view fs dest file
      → (save fs json manifest dest w).0 ≡ ok tt
      → claim json (view.contents (manifest_path dest) (save fs json manifest dest w).1)
        ≡ resume_offset manifest
  save-claim dest file manifest w laws saved =
      let (bytes, e, left) = save-contents dest file manifest w laws saved in
      ap (claim json) left ∙ claim-written view json fs readable manifest e

  save-position :
      (dest : FilePath) (file : ℕ) (manifest : Manifest) (w : W)
      → Laws view fs dest file
      → view.position file (save fs json manifest dest w).1 ≡ view.position file w
  unfolding save
  save-position dest file manifest w laws = elim (Sum-cases (json.to_vec manifest)) [
    | inl (text, e) ↦ rw e
    | inr (bytes, e) ↦
        let w1 = (fs.write (temporary dest) bytes w).1 in
        elim (IoResult-cases (fs.write (temporary dest) bytes w).0) [
          | inr (error, e') ↦ rw (e, e') ((laws.write_stays bytes w).1.0)
          | inl (u, e') ↦ rw (e, e', (laws.rename_stays w1).1.0, (laws.write_stays bytes w).1.0)
        ]
  ]

  -- What a checkpoint records, when it says that it did.
  abbrev pub Recorded : ℕ → Opened W → Opened W → Type 0
  Recorded file s s' =
      (claim json (view.contents (manifest_path s.part.dest) s'.disk) ≡ view.position file s.disk)
      × ((view.position file s'.disk ≡ view.position file s.disk)
          × ((resume_offset s'.part.manifest ≡ view.position file s.disk)
              × (s'.part.dirty ≡ false)))

  checkpoint_dirty-Recorded :
      (s : Opened W)
      → Laws view fs s.part.dest s.part.file
      → (checkpoint_dirty fs json s).0 ≡ ok tt
      → Recorded s.part.file s (checkpoint_dirty fs json s).1
  unfolding checkpoint_dirty
  checkpoint_dirty-Recorded s laws returned =
      let file = s.part.file in
      let w1 = (fs.stream_position file s.disk).1 in
      let w2 = (fs.sync_data file w1).1 in
      elim (IoResult-cases (fs.stream_position file s.disk).0) [
        | inr (error, e) ↦ let impossible = rw e at returned in cc
        | inl (p, e) ↦ elim (IoResult-cases (fs.sync_data file w1).0) [
          | inr (error, e') ↦ let impossible = rw (e, e') at returned in cc
          | inl (u, e') ↦
              let manifest = set_contiguous p s.part.manifest in
              let resumes : resume_offset manifest ≡ view.position file s.disk =
                resume_offset-set_contiguous p s.part.manifest
                ∙ laws.stream_position_done s.disk p e in
              let stands : view.position file (save fs json manifest s.part.dest w2).1
                  ≡ view.position file s.disk =
                save-position s.part.dest file manifest w2 laws
                ∙ ((laws.sync_data_stays w1).1.0
                    ∙ ap (view.position file) (laws.stream_position_keeps s.disk)) in
              elim (Result-cases (save fs json manifest s.part.dest w2).0) [
                | inr (error, e'') ↦ let impossible = rw (e, e', e'') at returned in cc
                | inl (v, e'') ↦
                    rw (e, e', e'')
                      (
                        save-claim s.part.dest file manifest w2 laws e'' ∙ resumes,
                        (stands, (resumes, refl)),
                      )
              ]
        ]
      ]

  -- When a checkpoint of a dirty part file returns `Ok`, the manifest on disk claims exactly the
  -- bytes up to where the file stands, so does the one in memory, the file stands where it stood,
  -- and it is clean.
  pub checkpoint-Recorded :
      (s : Opened W)
      → Laws view fs s.part.dest s.part.file
      → s.part.dirty ≡ true
      → (checkpoint fs json s).0 ≡ ok tt
      → Recorded s.part.file s (checkpoint fs json s).1
  unfolding checkpoint
  checkpoint-Recorded s laws dirty returned =
      let opens : checkpoint fs json s ≡ checkpoint_dirty fs json s =
        ap (λ b. if b then checkpoint_dirty fs json s else (ok tt, s)) dirty in
      subst (λ (r : Result (Unit {0}) × Opened W). Recorded s.part.file s r.1) (sym opens)
        (checkpoint_dirty-Recorded s laws (sym (ap (λ r. r.0) opens) ∙ returned))

  -- When a write returns `Ok`, the file stands less than 4 MiB beyond what its manifest records.
  pub write-bound :
      (s : Opened W) (bytes : Bytes)
      → Laws view fs s.part.dest s.part.file
      → (write fs json bytes s).0 ≡ ok tt
      → view.position s.part.file (write fs json bytes s).1.disk
          - resume_offset (write fs json bytes s).1.part.manifest
        < checkpoint_bytes
  unfolding write
  write-bound s bytes laws returned =
      let file = s.part.file in
      let w1 = (fs.write_all file bytes s.disk).1 in
      let w2 = (fs.stream_position file w1).1 in
      let t : Opened W = record { part = record s.part { dirty = true }; disk = w2 } in
      elim (IoResult-cases (fs.write_all file bytes s.disk).0) [
        | inr (error, e) ↦ let impossible = rw e at returned in cc
        | inl (u, e) ↦ elim (IoResult-cases (fs.stream_position file w1).0) [
          | inr (error, e') ↦ let impossible = rw (e, e') at returned in cc
          | inl (p, e') ↦
              elim (Bool-cases (leb checkpoint_bytes (p - resume_offset s.part.manifest))) [
                | inl often ↦
                    let recorded =
                      checkpoint-Recorded t laws refl (rw (e, e', often) at returned) in
                    rw (e, e', often) (omega (arith, recorded))
                | inr later ↦
                    rw
                      (
                        e,
                        e',
                        later,
                        laws.stream_position_keeps w1,
                        sym (laws.stream_position_done w1 p e'),
                      )
                      (ground arith)
              ]
        ]
      ]
