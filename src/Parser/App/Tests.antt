-- ===== src/Parser/App/Tests.antt =====
-- A service that starts with a directory of one manifest, a file of another kind and a directory.
use Prim.Native.String.{◌++◌}
use infrastructure_managemen.Common.Logger.{Build, new_logger, level_of}
use infrastructure_managemen.Common.{String, ◌≡◌, refl, true, false, [], ◌∷◌, Result, ok}
use infrastructure_managemen.Common.Int.{pos}
use infrastructure_managemen.Common.Text.{trim_space, to_lower, equal_fold}
use infrastructure_managemen.Common.Order.{sort_by, insert_by}
use infrastructure_managemen.Common.Paths.{extension, extension_from}
use infrastructure_managemen.Common.Checks.{bad_port, complain, is_blank, or_default}
use infrastructure_managemen.Common.Resolve.{Paths}
use infrastructure_managemen.Parser.Config.{
  Config, ConfigError, load, normalize, normalized, validate, config_errors, bad_mode, resolve_path,
}
use infrastructure_managemen.Parser.Loader.{
  FileSet, Files, discover_files, discover_directory_mode, add_entries, add_json, add_ignored,
  sorted, is_json_file,
}
use infrastructure_managemen.Parser.Store.{Store}
use infrastructure_managemen.Parser.Tests.{floats, unmarshal, now}
use infrastructure_managemen.Parser.App.{start_service, serve_files}
use infrastructure_managemen.Parser.App.Laws.{IsServed, start_service-IsServed}

abbrev pub files : Files String
files = record {
  is_dir = λ path. ok true;
  read_dir = λ path. ok (("good.json", false) ∷ ("README.md", false) ∷ ("old.json", true) ∷ []);
  join = λ path name. path ++ ("/" ++ name);
  read_file = λ path. ok "manifest";
}

abbrev pub paths : Paths
paths = record {
  is_abs = λ path. true;
  exists = λ path. true;
  absolute = λ path. ok path;
  beside = λ file path. path;
}

abbrev pub build : Build
build level = ok tt

abbrev config : Config
config = record {
  server = record { host = " "; port = pos 8080 };
  logging = record { level = "INFO" };
  manifests = record { mode = "Directory"; path = " /etc/manifests " };
}

abbrev pub read : String → Result ConfigError Config
read path = ok config

abbrev normal_config : Config
normal_config = record {
  server = record { host = "0.0.0.0"; port = pos 8080 };
  logging = record { level = "info" };
  manifests = record { mode = "directory"; path = "/etc/manifests" };
}

abbrev found : FileSet
found = record {
  json_files = "/etc/manifests/good.json" ∷ [];
  ignored_files = "/etc/manifests/README.md" ∷ [];
}

abbrev pub store : Store
store = serve_files floats files paths unmarshal read build now normal_config "/etc/manifests" found

pub started : start_service floats files paths unmarshal read build now "app.yaml" ≡ ok store
unfolding start_service new_logger level_of load normalize normalized or_default validate
    config_errors is_blank bad_port bad_mode resolve_path discover_files discover_directory_mode
    add_entries add_json add_ignored sorted is_json_file trim_space to_lower equal_fold sort_by
    insert_by extension extension_from complain
started = refl

start_service-IsServed_example : IsServed files store
start_service-IsServed_example =
    start_service-IsServed floats files paths unmarshal read build now "app.yaml" store started
