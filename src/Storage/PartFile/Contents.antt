-- ===== src/Storage/PartFile/Contents.antt =====
-- storage/file.rs: the bytes of an open part file, up to the file that it becomes.
use download_manager.Base.{
  ℕ, ◌-◌, ◌≡◌, refl, sym, ap, ◌∙◌, subst, Bool, some, ◌++◌, true, inl, inr, length, length-append,
  arith, Bool-cases, leb, if◌then◌else◌,
}
use download_manager.Error.{Result, ok}
use download_manager.Storage.Paths.{FilePath, part_path, manifest_path}
use download_manager.Storage.FileSystem.{FileSystem, Bytes, done}
use download_manager.Storage.Manifest.{Manifest, resume_offset, set_contiguous}
use download_manager.Storage.Sidecar.{Json, temporary, save}
use download_manager.Storage.PartFile.{
  PartFile, Opened, checkpoint_bytes, checkpoint, checkpoint_dirty, write, finalize,
}
use download_manager.Storage.PartFile.Laws.{View, Laws, Readable}
use download_manager.Storage.PartFile.Durable.{IoResult-cases, Result-cases, Sum-cases}
use download_manager.Storage.PartFile.Position.{Advances, write-position}

-- The bytes of open files, with the documented behaviour of the calls on one destination and its part
-- file.
pub record Texts {W : Type 0} (view : View W) (fs : FileSystem W) (dest : FilePath) (file : ℕ)
    (text : ℕ → W → Bytes) : Type 0 where
  pub len_text : (w : W) → view.len file w ≡ length (text file w)
  pub write_all_text :
      (bytes : Bytes) (w : W)
      → (fs.write_all file bytes w).0 ≡ done tt
      → view.position file w ≡ length (text file w)
      → text file (fs.write_all file bytes w).1 ≡ text file w ++ bytes
  pub sync_data_text : (w : W) → text file (fs.sync_data file w).1 ≡ text file w
  pub sync_all_text : (w : W) → text file (fs.sync_all file w).1 ≡ text file w
  pub write_text :
      (bytes : Bytes) (w : W) → text file (fs.write (temporary dest) bytes w).1 ≡ text file w
  pub rename_text :
      (w : W) → text file (fs.rename (temporary dest) (manifest_path dest) w).1 ≡ text file w
  pub rename_part :
      (w : W)
      → (fs.rename (part_path dest) dest w).0 ≡ done tt
      → view.contents dest (fs.rename (part_path dest) dest w).1 ≡ some (text file w)
  pub remove_manifest :
      (w : W) → view.contents dest (fs.remove_file (manifest_path dest) w).1 ≡ view.contents dest w

module _ {W : Type 0} (view : View W) (fs : FileSystem W) (json : Json) (text : ℕ → W → Bytes) where
  save-text :
      (dest : FilePath) (file : ℕ) (manifest : Manifest) (w : W)
      → Texts view fs dest file text
      → text file (save fs json manifest dest w).1 ≡ text file w
  unfolding save
  save-text dest file manifest w laws = elim (Sum-cases (json.to_vec manifest)) [
    | inl (error, e) ↦ rw e
    | inr (bytes, e) ↦
        let w1 = (fs.write (temporary dest) bytes w).1 in
        elim (IoResult-cases (fs.write (temporary dest) bytes w).0) [
          | inr (error, e') ↦ rw (e, e') (laws.write_text bytes w)
          | inl (u, e') ↦ rw (e, e') (laws.rename_text w1 ∙ laws.write_text bytes w)
        ]
  ]

  checkpoint_dirty-text :
      (s : Opened W)
      → Laws view fs s.part.dest s.part.file
      → Texts view fs s.part.dest s.part.file text
      → text s.part.file (checkpoint_dirty fs json s).1.disk ≡ text s.part.file s.disk
  unfolding checkpoint_dirty
  checkpoint_dirty-text s laws texts =
      let file = s.part.file in
      let w1 = (fs.stream_position file s.disk).1 in
      let w2 = (fs.sync_data file w1).1 in
      let same1 = ap (text file) (laws.stream_position_keeps s.disk) in
      let same2 = texts.sync_data_text w1 ∙ same1 in
      elim (IoResult-cases (fs.stream_position file s.disk).0) [
        | inr (error, e) ↦ rw e same1
        | inl (p, e) ↦ elim (IoResult-cases (fs.sync_data file w1).0) [
          | inr (error, e') ↦ rw (e, e') same2
          | inl (u, e') ↦
              let manifest = set_contiguous p s.part.manifest in
              let same3 = save-text s.part.dest file manifest w2 texts ∙ same2 in
              elim (Result-cases (save fs json manifest s.part.dest w2).0) [
                | inr (error, e'') ↦ rw (e, e', e'') same3
                | inl (v, e'') ↦ rw (e, e', e'') same3
              ]
        ]
      ]

  -- A checkpoint leaves the bytes as they are.
  pub checkpoint-text :
      (s : Opened W)
      → Laws view fs s.part.dest s.part.file
      → Texts view fs s.part.dest s.part.file text
      → text s.part.file (checkpoint fs json s).1.disk ≡ text s.part.file s.disk
  unfolding checkpoint
  checkpoint-text s laws texts =
      let whether : Bool → Result (Unit {0}) × Opened W =
        λ b. if b then checkpoint_dirty fs json s else (ok tt, s) in
      let P : Result (Unit {0}) × Opened W → Type 0 =
        λ r. text s.part.file r.1.disk ≡ text s.part.file s.disk in
      elim (Bool-cases s.part.dirty) [
        | inl dirty ↦ subst P (sym (ap whether dirty)) (checkpoint_dirty-text s laws texts)
        | inr clean ↦ subst P (sym (ap whether clean)) refl
      ]

  -- The file stands at its end.
  abbrev pub AtEnd : ℕ → W → Type 0
  AtEnd file w = view.position file w ≡ length (text file w)

  -- A write that returns `Ok` at the end of the file has appended its bytes, and is at the end again.
  pub write-text :
      (readable : Readable json) (s : Opened W) (bytes : Bytes)
      → Laws view fs s.part.dest s.part.file
      → Texts view fs s.part.dest s.part.file text
      → Advances view fs s.part.file
      → AtEnd s.part.file s.disk
      → (write fs json bytes s).0 ≡ ok tt
      → (text s.part.file (write fs json bytes s).1.disk ≡ text s.part.file s.disk ++ bytes)
        × AtEnd s.part.file (write fs json bytes s).1.disk
  unfolding write
  write-text readable s bytes laws texts advances at_end returned =
      let file = s.part.file in
      let w1 = (fs.write_all file bytes s.disk).1 in
      let w2 = (fs.stream_position file w1).1 in
      let t : Opened W = record { part = record s.part { dirty = true }; disk = w2 } in
      let appended : text file (write fs json bytes s).1.disk ≡ text file s.disk ++ bytes =
        elim (IoResult-cases (fs.write_all file bytes s.disk).0) [
          | inr (error, e) ↦ let impossible = rw e at returned in cc
          | inl (u, e) ↦
              let longer : text file w2 ≡ text file s.disk ++ bytes =
                ap (text file) (laws.stream_position_keeps w1)
                ∙ texts.write_all_text bytes s.disk e at_end in
              elim (IoResult-cases (fs.stream_position file w1).0) [
                | inr (error, e') ↦ rw (e, e') longer
                | inl (p, e') ↦
                    elim (Bool-cases (leb checkpoint_bytes (p - resume_offset s.part.manifest))) [
                      | inl often ↦ rw (e, e', often) (checkpoint-text t laws texts ∙ longer)
                      | inr later ↦ rw (e, e', later) longer
                    ]
              ]
        ] in
      let moved = write-position view fs json readable s bytes laws advances returned in
      (
        appended,
        omega (arith, moved, at_end, ap length appended, length-append (text file s.disk) bytes),
      )

  -- When the part file is finalized, its bytes stand at its destination.
  pub finalize-text :
      (part : PartFile) (w : W) {path : FilePath}
      → Texts view fs part.dest part.file text
      → (finalize fs part w).0 ≡ ok path
      → view.contents part.dest (finalize fs part w).1 ≡ some (text part.file w)
  unfolding finalize
  finalize-text part w texts returned =
      let w1 = (fs.sync_all part.file w).1 in
      let w2 = (fs.rename (part_path part.dest) part.dest w1).1 in
      elim (IoResult-cases (fs.sync_all part.file w).0) [
        | inr (error, e) ↦ let impossible = rw e at returned in cc
        | inl (u, e) ↦ elim (IoResult-cases (fs.rename (part_path part.dest) part.dest w1).0) [
          | inr (error, e') ↦ let impossible = rw (e, e') at returned in cc
          | inl (v, e') ↦
              rw (e, e')
                (texts.remove_manifest w2
                  ∙ (texts.rename_part w1 e' ∙ ap some (texts.sync_all_text w)))
        ]
      ]
