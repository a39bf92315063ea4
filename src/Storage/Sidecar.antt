-- ===== src/Storage/Sidecar.antt =====
-- storage/mod.rs and storage/manifest.rs: the length of the `.part` file, and the manifest on disk.
-- `serde_json` is a parameter.
use download_manager.Base.{ℕ, String, ◌⊎◌, inl, inr, Option, none}
use download_manager.Error.{Result, ok, err, io, unknown}
use download_manager.Io.{Io, attempt, from_result, ◌>>=◌, ◌>>◌}
use download_manager.Storage.Paths.{FilePath, part_path, manifest_path, with_added_extension}
use download_manager.Storage.FileSystem.{
  FileSystem, IoResult, Bytes, done, failed, not_found, other,
}
use download_manager.Storage.Manifest.{Manifest}

-- `to_vec` gives an error's text or the bytes; `from_slice` fails on what is no manifest.
pub record Json : Type 0 where
  pub to_vec : Manifest → String ⊎ Bytes
  pub from_slice : Bytes → Option Manifest

abbrev pub encoded : String ⊎ Bytes → Result Bytes
encoded (inl text) = err (unknown text)
encoded (inr bytes) = ok bytes

abbrev pub temporary : FilePath → FilePath
temporary dest = with_added_extension (manifest_path dest) "tmp"

module _ {W : Type 0} (fs : FileSystem W) where
  abbrev pub length_or_zero : IoResult ℕ → Result ℕ
  length_or_zero (done len) = ok len
  length_or_zero (failed error) = elim error.kind [ not_found ↦ ok 0 | other ↦ err (io error) ]

  unfoldable pub part_len : FilePath → Io W ℕ
  part_len dest disk =
      let (result, disk') = fs.metadata (part_path dest) disk in (length_or_zero result, disk')

  module _ (json : Json) where
    abbrev pub parsed : IoResult Bytes → Option Manifest
    parsed (done bytes) = json.from_slice bytes
    parsed (failed error) = none

    -- A manifest that is missing, unreadable or no JSON is taken to be absent.
    unfoldable pub load : FilePath → W → Option Manifest × W
    load dest disk =
        let (result, disk') = fs.read (manifest_path dest) disk in (parsed result, disk')

    unfoldable pub save : Manifest → FilePath → Io W (Unit {0})
    save manifest dest = do
      bytes ← from_result (encoded (json.to_vec manifest))
      attempt (fs.write (temporary dest) bytes)
      attempt (fs.rename (temporary dest) (manifest_path dest))
