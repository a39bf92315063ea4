-- ===== src/Storage/PartFile/Durable.antt =====
-- storage/file.rs: what is on disk survives a crash.
use download_manager.Base.{
  ℕ, ◌≤◌, ◌-◌, ◌≡◌, refl, Bool, true, false, some, ◌⊎◌, inl, inr, arith, if◌then◌else◌, Bool-cases,
  leb,
}
use download_manager.Error.{Error, Result, ok, err}
use download_manager.Storage.Paths.{FilePath, manifest_path}
use download_manager.Storage.FileSystem.{FileSystem, IoError, IoResult, Bytes, done, failed}
use download_manager.Storage.Manifest.{Manifest, resume_offset, set_contiguous}
use download_manager.Storage.Manifest.Resume.{resume_offset-ranges, resume_offset-set_contiguous}
use download_manager.Storage.Sidecar.{Json, temporary, save}
use download_manager.Storage.PartFile.{
  Opened, checkpoint_bytes, checkpoint_dirty, checkpoint, write,
}
use download_manager.Storage.PartFile.Laws.{View, Keeps, Stays, Laws, Readable, claim}

pub IoResult-cases :
    {A : Type 0} (r : IoResult A)
    → ((a : A) × (r ≡ done a)) ⊎ ((error : IoError) × (r ≡ failed error))
IoResult-cases (done a) = inl (a, refl)
IoResult-cases (failed error) = inr (error, refl)

pub if-both :
    {A : Type 0} (P : A → Type 0) (b : Bool) {x y : A} → P x → P y → P (if b then x else y)
if-both P true p q = p
if-both P false p q = q

pub Sum-cases : {A B : Type 0} (r : A ⊎ B) → ((a : A) × (r ≡ inl a)) ⊎ ((b : B) × (r ≡ inr b))
Sum-cases (inl a) = inl (a, refl)
Sum-cases (inr b) = inr (b, refl)

pub Result-cases :
    {A : Type 0} (r : Result A) → ((a : A) × (r ≡ ok a)) ⊎ ((error : Error) × (r ≡ err error))
Result-cases (ok a) = inl (a, refl)
Result-cases (err error) = inr (error, refl)

module _ {W : Type 0} (view : View W) (json : Json) where
  -- The manifest on disk claims no more than is durable, and the file stands inside itself.
  abbrev pub Backed : (dest : FilePath) (file : ℕ) → W → Type 0
  Backed dest file w =
      (claim json (view.contents (manifest_path dest) w) ≤ view.durable file w)
      × (view.position file w ≤ view.len file w)

  -- What moves the file forward and leaves the manifest as it is.
  Keeps-Backed :
      (dest : FilePath) (file : ℕ) (w w' : W)
      → Backed dest file w
      → Keeps view file w w'
      → view.contents (manifest_path dest) w' ≡ view.contents (manifest_path dest) w
      → Backed dest file w'
  Keeps-Backed dest file w w' (h, k) (durable, inside) e = (rw e (omega arith), inside k)

  Stays-Backed :
      (dest : FilePath) (file : ℕ) (w w' : W)
      → Backed dest file w
      → Stays view file w w'
      → view.contents (manifest_path dest) w' ≡ view.contents (manifest_path dest) w
      → Backed dest file w'
  Stays-Backed dest file w w' h (durable, (position, len)) e =
      Keeps-Backed dest file w w' h (durable, omega arith) e

  module _ (fs : FileSystem W) (readable : Readable json) where
    pub claim-written :
        (manifest : Manifest) {bytes : Bytes}
        → json.to_vec manifest ≡ inr bytes
        → claim json (some bytes) ≡ resume_offset manifest
    unfolding claim
    claim-written manifest e =
        let (read, (reads, same)) = readable.reads_back manifest e in
        rw (claim, reads) (resume_offset-ranges read manifest same)

    -- A save ends with the old manifest, or with one that claims what is durable.
    save-Backed :
        (dest : FilePath) (file : ℕ) (manifest : Manifest) (w : W)
        → Laws view fs dest file
        → Backed dest file w
        → resume_offset manifest ≤ view.durable file w
        → Backed dest file (save fs json manifest dest w).1
    unfolding save
    save-Backed dest file manifest w laws h k = elim (Sum-cases (json.to_vec manifest)) [
      | inl (text, e) ↦ rw e h
      | inr (bytes, e) ↦
          let w1 = (fs.write (temporary dest) bytes w).1 in
          let h1 =
            Stays-Backed dest file w w1 h (laws.write_stays bytes w)
              (laws.write_manifest bytes w) in
          elim (IoResult-cases (fs.write (temporary dest) bytes w).0) [
            | inr (error, e') ↦ rw (e, e') h1
            | inl (u, e') ↦
                let w2 = (fs.rename (temporary dest) (manifest_path dest) w1).1 in
                elim (IoResult-cases (fs.rename (temporary dest) (manifest_path dest) w1).0) [
                  | inr (error, e'') ↦
                      rw (e, e')
                        (Stays-Backed dest file w1 w2 h1 (laws.rename_stays w1)
                          (laws.rename_failed w1 e''))
                  | inl (v, e'') ↦
                      rw (e, e')
                        (
                          rw
                              (
                                laws.rename_done w1 e'',
                                laws.write_done bytes w e',
                                claim-written manifest e,
                              )
                              (omega (arith, laws.write_stays bytes w, laws.rename_stays w1)),
                          omega (arith, laws.rename_stays w1),
                        )
                ]
          ]
    ]

    -- Up to the moment when a checkpoint saves, and after it.
    checkpoint_dirty-Backed :
        (s : Opened W)
        → Laws view fs s.part.dest s.part.file
        → Backed s.part.dest s.part.file s.disk
        → Backed s.part.dest s.part.file (checkpoint_dirty fs json s).1.disk
    unfolding checkpoint_dirty
    checkpoint_dirty-Backed s laws h =
        let file = s.part.file in
        let w1 = (fs.stream_position file s.disk).1 in
        let w2 = (fs.sync_data file w1).1 in
        let h1 : Backed s.part.dest file w1 = rw (laws.stream_position_keeps s.disk) h in
        let h2 =
          Stays-Backed s.part.dest file w1 w2 h1 (laws.sync_data_stays w1)
            (laws.sync_data_manifest w1) in
        elim (IoResult-cases (fs.stream_position file s.disk).0) [
          | inr (error, e) ↦ rw e h1
          | inl (p, e) ↦ elim (IoResult-cases (fs.sync_data file w1).0) [
            | inr (error, e') ↦ rw (e, e') h2
            | inl (u, e') ↦
                let manifest = set_contiguous p s.part.manifest in
                let at : p ≡ view.position file w1 =
                  rw (laws.stream_position_keeps s.disk) (laws.stream_position_done s.disk p e) in
                let claims : resume_offset manifest ≤ view.durable file w2 =
                  rw (resume_offset-set_contiguous p s.part.manifest, at)
                    (laws.sync_data_done w1 e' h1.1) in
                let saved = save-Backed s.part.dest file manifest w2 laws h2 claims in
                elim (Result-cases (save fs json manifest s.part.dest w2).0) [
                  | inl (v, e'') ↦ rw (e, e', e'') saved
                  | inr (error, e'') ↦ rw (e, e', e'') saved
                ]
          ]
        ]

    pub checkpoint-Backed :
        (s : Opened W)
        → Laws view fs s.part.dest s.part.file
        → Backed s.part.dest s.part.file s.disk
        → Backed s.part.dest s.part.file (checkpoint fs json s).1.disk
    unfolding checkpoint
    checkpoint-Backed s laws h =
        if-both {A = Result (Unit {0}) × Opened W} (λ r. Backed s.part.dest s.part.file r.1.disk)
          s.part.dirty (checkpoint_dirty-Backed s laws h) h

    pub write-Backed :
        (s : Opened W) (bytes : Bytes)
        → Laws view fs s.part.dest s.part.file
        → Backed s.part.dest s.part.file s.disk
        → Backed s.part.dest s.part.file (write fs json bytes s).1.disk
    unfolding write
    write-Backed s bytes laws h =
        let file = s.part.file in
        let w1 = (fs.write_all file bytes s.disk).1 in
        let w2 = (fs.stream_position file w1).1 in
        let h1 =
          Keeps-Backed s.part.dest file s.disk w1 h (laws.write_all_keeps bytes s.disk)
            (laws.write_all_manifest bytes s.disk) in
        let h2 : Backed s.part.dest file w2 = rw (laws.stream_position_keeps w1) h1 in
        let part = record s.part { dirty = true } in
        elim (IoResult-cases (fs.write_all file bytes s.disk).0) [
          | inr (error, e) ↦ rw e h1
          | inl (u, e) ↦ elim (IoResult-cases (fs.stream_position file w1).0) [
            | inr (error, e') ↦ rw (e, e') h2
            | inl (p, e') ↦
                elim (Bool-cases (leb checkpoint_bytes (p - resume_offset s.part.manifest))) [
                  | inl often ↦
                      rw (e, e', often)
                        (checkpoint-Backed (record { part = part; disk = w2 }) laws h2)
                  | inr later ↦ rw (e, e', later) h2
                ]
          ]
        ]
