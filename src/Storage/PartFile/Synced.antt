-- ===== src/Storage/PartFile/Synced.antt =====
-- storage/file.rs: when a part file that is clean has its manifest on disk.
use download_manager.Base.{
  ℕ, ◌-◌, ◌≡◌, refl, sym, ap, ◌∙◌, subst, ◌⊎◌, true, false, inl, inr, Bool-cases, leb,
  if◌then◌else◌,
}
use download_manager.Error.{Result, ok}
use download_manager.Storage.Paths.{manifest_path}
use download_manager.Storage.FileSystem.{FileSystem, Bytes}
use download_manager.Storage.Manifest.{resume_offset}
use download_manager.Storage.Sidecar.{Json}
use download_manager.Storage.PartFile.{
  Opened, checkpoint_bytes, checkpoint, checkpoint_dirty, write,
}
use download_manager.Storage.PartFile.Laws.{View, Laws, Readable, claim}
use download_manager.Storage.PartFile.Durable.{IoResult-cases}
use download_manager.Storage.PartFile.Recorded.{checkpoint-Recorded}
use download_manager.Storage.Paths.{FilePath}

module _ {W : Type 0} (view : View W) (json : Json) where
  -- The manifest on disk claims what is before the position.
  abbrev pub Claims : FilePath → ℕ → Opened W → Type 0
  Claims dest file s =
      claim json (view.contents (manifest_path dest) s.disk) ≡ view.position file s.disk

  -- Or a checkpoint is due.
  abbrev pub Synced : FilePath → ℕ → Opened W → Type 0
  Synced dest file s = (s.part.dirty ≡ true) ⊎ Claims dest file s

  module _ (fs : FileSystem W) (readable : Readable json) where
    -- A checkpoint brings it about.
    pub checkpoint-Claims :
        (s : Opened W)
        → Laws view fs s.part.dest s.part.file
        → Synced s.part.dest s.part.file s
        → (checkpoint fs json s).0 ≡ ok tt
        → ((checkpoint fs json s).1.part.dirty ≡ false)
          × Claims s.part.dest s.part.file (checkpoint fs json s).1
          × (view.position s.part.file (checkpoint fs json s).1.disk
              ≡ view.position s.part.file s.disk)
    unfolding checkpoint
    checkpoint-Claims s laws synced returned = elim (Bool-cases s.part.dirty) [
      | inl dirty ↦
          let (claims, (stands, (resumes, clean))) =
            checkpoint-Recorded view json fs readable s laws dirty returned in
          (clean, claims ∙ sym stands, stands)
      | inr clean ↦
          let stays : checkpoint fs json s ≡ (ok tt, s) =
            ap (λ b. if b then checkpoint_dirty fs json s else (ok tt, s)) clean in
          let claims : Claims s.part.dest s.part.file s = elim synced [
            | inl dirty ↦ let impossible = sym clean ∙ dirty in absurd (cc)
            | inr claims ↦ claims
          ] in
          subst
            (λ (r : Result (Unit {0}) × Opened W).
              (r.1.part.dirty ≡ false)
              × Claims s.part.dest s.part.file r.1
              × (view.position s.part.file r.1.disk ≡ view.position s.part.file s.disk))
            (sym stays) (clean, claims, refl)
    ]

    pub write-Synced :
        (s : Opened W) (bytes : Bytes)
        → Laws view fs s.part.dest s.part.file
        → (write fs json bytes s).0 ≡ ok tt
        → Synced s.part.dest s.part.file (write fs json bytes s).1
    unfolding write
    write-Synced s bytes laws returned =
        let file = s.part.file in
        let w1 = (fs.write_all file bytes s.disk).1 in
        let w2 = (fs.stream_position file w1).1 in
        let t : Opened W = record { part = record s.part { dirty = true }; disk = w2 } in
        elim (IoResult-cases (fs.write_all file bytes s.disk).0) [
          | inr (error, e) ↦ let impossible = rw e at returned in cc
          | inl (u, e) ↦ elim (IoResult-cases (fs.stream_position file w1).0) [
            | inr (error, e') ↦ let impossible = rw (e, e') at returned in cc
            | inl (p, e') ↦
                elim (Bool-cases (leb checkpoint_bytes (p - resume_offset s.part.manifest))) [
                  | inl often ↦
                      let (claims, (stands, _)) =
                        checkpoint-Recorded view json fs readable t laws refl
                          (rw (e, e', often) at returned) in
                      rw (e, e', often) (inr (claims ∙ sym stands))
                  | inr later ↦ rw (e, e', later) (inl refl)
                ]
          ]
        ]
