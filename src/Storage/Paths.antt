-- ===== src/Storage/Paths.antt =====
-- storage/mod.rs: the names of the files beside a destination.
use Prim.Native.String.{◌++◌}
use download_manager.Base.{String, Option, none, some}

-- `PathBuf`: everything up to the file name with its separator, and the name. A path with no
-- name is a root such as `/`, which has no parent either; a path that ends in `..` is left out.
pub record FilePath : Type 0 where
  pub parent : String
  pub file_name : Option String

-- `Path::with_added_extension`, which leaves a path with no file name as it is.
unfoldable pub with_added_extension : FilePath → String → FilePath
with_added_extension path extension = record path {
  file_name = elim path.file_name [ none ↦ none | some name ↦ some (name ++ ("." ++ extension)) ];
}

unfoldable pub part_path : FilePath → FilePath
unfolding with_added_extension
part_path dest = with_added_extension dest "part"

unfoldable pub manifest_path : FilePath → FilePath
unfolding with_added_extension
manifest_path dest = with_added_extension (part_path dest) "manifest.json"

-- The text of a path.
unfoldable pub display : FilePath → String
display path = elim path.file_name [ none ↦ path.parent | some name ↦ path.parent ++ name ]
