-- ===== src/Storage/PartFile/Opening.antt =====
-- storage/file.rs: `PartFile::open`, which cuts the part file and leaves the manifest on disk.
use download_manager.Base.{ℕ, String, ◌≡◌, ap, sym, false, ◌∙◌, inl, inr, arith}
use download_manager.Error.{ok}
use download_manager.Storage.Paths.{FilePath, manifest_path, part_path}
use download_manager.Storage.FileSystem.{FileSystem, done}
use download_manager.Storage.Manifest.{Manifest}
use download_manager.Storage.Sidecar.{Json}
use download_manager.Storage.PartFile.{PartFile, create_parent, open_at}
use download_manager.Storage.PartFile.Laws.{View, claim}
use download_manager.Storage.PartFile.Durable.{IoResult-cases, Result-cases}

module _ {W : Type 0} (view : View W) where
  abbrev Untouched : FilePath → W → W → Type 0
  Untouched dest w w' = view.contents (manifest_path dest) w' ≡ view.contents (manifest_path dest) w

  -- The documented behaviour of the calls that open the part file of a destination.
  pub record OpenLaws (fs : FileSystem W) (dest : FilePath) : Type 0 where
    pub create_dir_all_manifest :
        (path : String) (w : W) → Untouched dest w (fs.create_dir_all path w).1
    pub open_file_manifest : (w : W) → Untouched dest w (fs.open_file (part_path dest) w).1
    pub set_len_manifest : (file len : ℕ) (w : W) → Untouched dest w (fs.set_len file len w).1
    pub set_len_done :
        (file len : ℕ) (w : W)
        → (fs.set_len file len w).0 ≡ done tt
        → view.len file (fs.set_len file len w).1 ≡ len
    pub seek_manifest : (file to : ℕ) (w : W) → Untouched dest w (fs.seek file to w).1
    pub seek_done :
        (file to place : ℕ) (w : W)
        → (fs.seek file to w).0 ≡ done place
        → view.position file (fs.seek file to w).1 ≡ to
    pub seek_len : (file to : ℕ) (w : W) → view.len file (fs.seek file to w).1 ≡ view.len file w

  module _ (fs : FileSystem W) where
    create_parent-Untouched :
        (dest : FilePath) (w : W) → OpenLaws fs dest → Untouched dest w (create_parent fs dest w).1
    create_parent-Untouched dest w laws = ground (arith, laws.create_dir_all_manifest dest.parent w)

    -- The part file belongs to its destination and has the manifest, it ends and stands at the offset, and the manifest on
    -- disk is as it was.
    abbrev pub Opens : FilePath → ℕ → Manifest → W → PartFile → W → Type 0
    Opens dest offset manifest w part w' =
        (part.dest ≡ dest)
        × (part.manifest ≡ manifest)
        × (view.position part.file w' ≡ offset)
        × (view.len part.file w' ≡ offset)
        × Untouched dest w w'

    pub open_at_lem :
        (dest : FilePath) (offset : ℕ) (manifest : Manifest) (w : W) {part : PartFile}
        → OpenLaws fs dest
        → (open_at fs dest offset manifest w).0 ≡ ok part
        → Opens dest offset manifest w part (open_at fs dest offset manifest w).1
    unfolding open_at
    open_at_lem dest offset manifest w {part} laws opened =
        let w1 = (create_parent fs dest w).1 in
        let w2 = (fs.open_file (part_path dest) w1).1 in
        elim (Result-cases (create_parent fs dest w).0) [
          | inr (error, e) ↦ let impossible = rw e at opened in cc
          | inl (u, e) ↦ elim (IoResult-cases (fs.open_file (part_path dest) w1).0) [
            | inr (error, f) ↦ let impossible = rw (e, f) at opened in cc
            | inl (file, f) ↦
                let w3 = (fs.set_len file offset w2).1 in
                let w4 = (fs.seek file offset w3).1 in
                elim (IoResult-cases (fs.set_len file offset w2).0) [
                  | inr (error, g) ↦ let impossible = rw (e, f, g) at opened in cc
                  | inl (v, g) ↦ elim (IoResult-cases (fs.seek file offset w3).0) [
                    | inr (error, h) ↦ let impossible = rw (e, f, g, h) at opened in cc
                    | inl (x, h) ↦
                        let made : record {
                          dest = dest;
                          file = file;
                          dirty = false;
                          manifest = manifest;
                        }
                            ≡ part =
                          let both = rw (e, f, g, h) at opened in cc in
                        let same_file : file ≡ part.file = ap (λ (p : PartFile). p.file) made in
                        rw (e, f, g, h)
                          (
                            sym (ap (λ (p : PartFile). p.dest) made),
                            sym (ap (λ (p : PartFile). p.manifest) made),
                            rw (← same_file) (laws.seek_done file offset x w3 h),
                            rw (← same_file)
                                (laws.seek_len file offset w3 ∙ laws.set_len_done file offset w2 g),
                            laws.seek_manifest file offset w3
                                ∙ (laws.set_len_manifest file offset w2
                                    ∙ (laws.open_file_manifest w1
                                        ∙ create_parent-Untouched dest w laws)),
                          )
                  ]
                ]
          ]
        ]

    -- A part file that opens has been cut or extended to the offset, and the manifest on disk claims
    -- what it claimed before, even if that is more.
    pub open_at-claim :
        (json : Json) (dest : FilePath) (offset : ℕ) (manifest : Manifest) (w : W) {part : PartFile}
        → OpenLaws fs dest
        → (open_at fs dest offset manifest w).0 ≡ ok part
        → (view.len part.file (open_at fs dest offset manifest w).1 ≡ offset)
          × (claim json (view.contents (manifest_path dest) (open_at fs dest offset manifest w).1)
              ≡ claim json (view.contents (manifest_path dest) w))
    open_at-claim json dest offset manifest w {part} laws opened =
        let (_, _, _, cut, untouched) =
          open_at_lem dest offset manifest w {part = part} laws opened in
        (cut, ap (claim json) untouched)
