-- ===== src/Parser/Loader.antt =====
-- ParserSvc/internal/loader/manifest_loader.go. The file system is an argument.
use Prim.Native.String.{◌++◌ as concat}
use infrastructure_managemen.Common.{
  String, Bool, true, false, List, [], ◌∷◌, ◌==◌, if◌then◌else◌, Result, ok, err, map_err, ◌>>=◌,
}
use infrastructure_managemen.Common.Text.{trim_space, to_lower, equal_fold}
use infrastructure_managemen.Common.Paths.{extension}
use infrastructure_managemen.Common.Order.{str_lt, sort_by}
use infrastructure_managemen.Parser.Config.{manifest_mode_file, manifest_mode_directory}

pub record FileSet : Type 0 where
  pub json_files : List String
  pub ignored_files : List String

-- os.Stat as far as IsDir, os.ReadDir with the names and IsDir of the entries, filepath.Join, and os.ReadFile.
pub record Files (Bytes : Type 0) : Type 0 where
  pub is_dir : String → Result String Bool
  pub read_dir : String → Result String (List (String × Bool))
  pub join : String → String → String
  pub read_file : String → Result String Bytes

unfoldable pub is_json_file : String → Bool
is_json_file path = equal_fold (extension path) ".json"

unfoldable pub add_json : String → FileSet → FileSet
add_json path set = record set { json_files = path ∷ set.json_files }

unfoldable pub add_ignored : String → FileSet → FileSet
add_ignored path set = record set { ignored_files = path ∷ set.ignored_files }

module _ {Bytes : Type 0} (files : Files Bytes) where
  -- The set that one path gives.
  abbrev pub file_alone : String → Bool → Result String FileSet
  file_alone path true = err (concat "manifest file mode expects file, got directory: " path)
  file_alone path false = ok (
      if is_json_file path
      then record { json_files = path ∷ []; ignored_files = [] }
      else record { json_files = []; ignored_files = path ∷ [] })

  unfoldable pub discover_file_mode : String → Result String FileSet
  discover_file_mode path =
      map_err (concat "stat manifest file: ") (files.is_dir path) >>= file_alone path

  -- The loop over the entries, of which the directories are left out.
  unfoldable pub add_entries : String → List (String × Bool) → FileSet
  add_entries path [] = record { json_files = []; ignored_files = [] }
  add_entries path ((name, is_dir) ∷ entries) =
      let rest = add_entries path entries in
      if is_dir
      then rest
      else if is_json_file name
      then add_json (files.join path name) rest
      else add_ignored (files.join path name) rest

  unfoldable pub sorted : FileSet → FileSet
  sorted set = record {
    json_files = sort_by str_lt set.json_files;
    ignored_files = sort_by str_lt set.ignored_files;
  }

  abbrev pub entries_of : String → Bool → Result String FileSet
  entries_of path false = err (concat "manifest directory mode expects directory, got file: " path)
  entries_of path true =
      map_err (concat "read manifest directory: ") (files.read_dir path) >>= λ entries.
      ok (sorted (add_entries path entries))

  unfoldable pub discover_directory_mode : String → Result String FileSet
  discover_directory_mode path =
      map_err (concat "stat manifest directory: ") (files.is_dir path) >>= entries_of path

  unfoldable pub discover_files : String → String → Result String FileSet
  discover_files mode manifest_path =
      let normalized_mode = to_lower (trim_space mode) in
      let normalized_path = trim_space manifest_path in
      if normalized_path == ""
      then err "manifest path is required"
      else if normalized_mode == manifest_mode_file
      then discover_file_mode normalized_path
      else if normalized_mode == manifest_mode_directory
      then discover_directory_mode normalized_path
      else err (concat "unsupported manifest mode: " mode)

  unfoldable pub load_file : String → Result String Bytes
  load_file path =
      map_err (λ e. concat "read file " (concat path (concat ": " e))) (files.read_file path)
