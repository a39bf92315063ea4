-- ===== src/Storage/Discard.antt =====
-- storage/mod.rs: the cleanup after a cancelled download.
use download_manager.Base.{List, [], ◌∷◌}
use download_manager.Error.{Result, ok, err, io}
use download_manager.Storage.Paths.{FilePath, part_path, manifest_path}
use download_manager.Storage.FileSystem.{FileSystem, IoResult, done, failed, not_found, other}

module _ {W : Type 0} (fs : FileSystem W) where
  -- What one removal means for the loop, which goes on after a success and after `NotFound`.
  unfoldable pub removal : IoResult (Unit {0}) → Result (Unit {0}) × W → W → Result (Unit {0}) × W
  removal (done _) rest disk = rest
  removal (failed error) rest disk = elim error.kind [
    | not_found ↦ rest
    | other ↦ (err (io error), disk)
  ]

  unfoldable pub remove_all : List FilePath → W → Result (Unit {0}) × W
  unfolding removal
  remove_all [] disk = (ok tt, disk)
  remove_all (path ∷ paths) disk =
      let (result, disk') = fs.remove_file path disk in
      removal result (remove_all paths disk') disk'

  unfoldable pub discard_partial : FilePath → W → Result (Unit {0}) × W
  unfolding remove_all part_path manifest_path
  discard_partial dest disk = remove_all (part_path dest ∷ manifest_path dest ∷ []) disk
