-- ===== src/Storage/PartFile/Keeping.antt =====
-- storage/file.rs: `PartFile::open` keeps the bytes up to its offset.
use download_manager.Base.{
  ℕ, String, ◌≤◌, ◌≡◌, sym, ap, ◌∙◌, subst, Option, none, some, [], inl, inr, take, length, arith,
  false,
}
use download_manager.Error.{ok}
use download_manager.Storage.Paths.{FilePath, part_path, manifest_path}
use download_manager.Storage.FileSystem.{FileSystem, Bytes, done}
use download_manager.Storage.Manifest.{Manifest}
use download_manager.Storage.PartFile.{PartFile, create_parent, open_at}
use download_manager.Storage.PartFile.Laws.{View}
use download_manager.Storage.PartFile.Durable.{IoResult-cases, Result-cases}

abbrev pub bytes_or_empty : Option Bytes → Bytes
bytes_or_empty none = []
bytes_or_empty (some bytes) = bytes

module _ {W : Type 0} (view : View W) (dest : FilePath) where
  -- What there is of the part file: nothing, if it is missing.
  abbrev pub found : W → Bytes
  found w = bytes_or_empty (view.contents (part_path dest) w)

  -- The documented behaviour of the calls that come before a transfer.
  pub record KeepLaws (fs : FileSystem W) (text : ℕ → W → Bytes) : Type 0 where
    pub metadata_found : (path : FilePath) (w : W) → found (fs.metadata path w).1 ≡ found w
    pub metadata_len :
        (w : W) {len : ℕ} → (fs.metadata (part_path dest) w).0 ≡ done len → len ≡ length (found w)
    pub read_found : (w : W) → found (fs.read (manifest_path dest) w).1 ≡ found w
    pub create_dir_all_found :
        (path : String) (w : W) → found (fs.create_dir_all path w).1 ≡ found w
    pub open_file_text :
        (w : W) {file : ℕ}
        → (fs.open_file (part_path dest) w).0 ≡ done file
        → text file (fs.open_file (part_path dest) w).1 ≡ found w
    pub set_len_text :
        (file len : ℕ) (w : W)
        → (fs.set_len file len w).0 ≡ done tt
        → len ≤ length (text file w)
        → text file (fs.set_len file len w).1 ≡ take len (text file w)
    pub seek_text : (file to : ℕ) (w : W) → text file (fs.seek file to w).1 ≡ text file w

  module _ (fs : FileSystem W) (text : ℕ → W → Bytes) (laws : KeepLaws fs text) where
    create_parent-found : (w : W) → found (create_parent fs dest w).1 ≡ found w
    create_parent-found w = ground (arith, laws.create_dir_all_found dest.parent w)

    -- A part file that opens has the first bytes of what there was.
    pub open_at-keeps :
        (offset : ℕ) (manifest : Manifest) (w : W) {part : PartFile}
        → offset ≤ length (found w)
        → (open_at fs dest offset manifest w).0 ≡ ok part
        → text part.file (open_at fs dest offset manifest w).1 ≡ take offset (found w)
    unfolding open_at
    open_at-keeps offset manifest w {part} reaches opened =
        let w1 = (create_parent fs dest w).1 in
        let w2 = (fs.open_file (part_path dest) w1).1 in
        elim (Result-cases (create_parent fs dest w).0) [
          | inr (error, e) ↦ let impossible = rw e at opened in cc
          | inl (u, e) ↦ elim (IoResult-cases (fs.open_file (part_path dest) w1).0) [
            | inr (error, f) ↦ let impossible = rw (e, f) at opened in cc
            | inl (file, f) ↦
                let w3 = (fs.set_len file offset w2).1 in
                elim (IoResult-cases (fs.set_len file offset w2).0) [
                  | inr (error, g) ↦ let impossible = rw (e, f, g) at opened in cc
                  | inl (v, g) ↦ elim (IoResult-cases (fs.seek file offset w3).0) [
                    | inr (error, h) ↦ let impossible = rw (e, f, g, h) at opened in cc
                    | inl (x, h) ↦
                        let made : record {
                          dest = dest;
                          file = file;
                          dirty = false;
                          manifest = manifest;
                        }
                            ≡ part =
                          let both = rw (e, f, g, h) at opened in cc in
                        let same_file : file ≡ part.file = ap (λ (p : PartFile). p.file) made in
                        let old : text file w2 ≡ found w =
                          laws.open_file_text w1 f ∙ create_parent-found w in
                        rw (e, f, g, h, ← same_file)
                          (laws.seek_text file offset w3
                            ∙ (laws.set_len_text file offset w2 g
                                  (subst (λ bytes. offset ≤ length bytes) (sym old) reaches)
                                ∙ ap (take offset) old))
                  ]
                ]
          ]
        ]
