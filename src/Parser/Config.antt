-- ===== src/Parser/Config.antt =====
-- ParserSvc/internal/config/config.go. Viper and the file system are arguments.
use infrastructure_managemen.Common.{
  String, Bool, false, not, Option, none, some, List, [], ◌==◌, if◌then◌else◌, Result, ok, err,
}
use infrastructure_managemen.Common.Int.{ℤ}
use infrastructure_managemen.Common.Text.{trim_space, to_lower}
use infrastructure_managemen.Common.Checks.{complain, is_blank, bad_port, or_default, report}
use infrastructure_managemen.Common.Resolve.{Paths}

pub record ServerConfig : Type 0 where
  pub host : String
  pub port : ℤ

pub record LoggingConfig : Type 0 where
  pub level : String

pub record ManifestsConfig : Type 0 where
  pub mode : String
  pub path : String

pub record Config : Type 0 where
  pub server : ServerConfig
  pub logging : LoggingConfig
  pub manifests : ManifestsConfig

abbrev pub manifest_mode_file : String
manifest_mode_file = "file"

abbrev pub manifest_mode_directory : String
manifest_mode_directory = "directory"

-- strings.ToLower(strings.TrimSpace(s))
unfoldable pub normalized : String → String
normalized s = to_lower (trim_space s)

-- (*Config).normalize
unfoldable pub normalize : Config → Config
normalize c = record {
  server = record c.server { host = or_default (trim_space c.server.host) "0.0.0.0" };
  logging = record { level = or_default (normalized c.logging.level) "info" };
  manifests = record { mode = normalized c.manifests.mode; path = trim_space c.manifests.path };
}

-- Whether the switch over the modes takes its default.
unfoldable pub bad_mode : String → Bool
bad_mode mode = if mode == manifest_mode_file then false else not (mode == manifest_mode_directory)

unfoldable pub config_errors : Config → List String
config_errors c = complain (is_blank c.manifests.path) "manifests.path is required" (
    complain (bad_mode c.manifests.mode) "manifests.mode must be one of: file, directory" (
      complain (is_blank c.logging.level) "logging.level is required" (
        complain (bad_port c.server.port) "server.port must be in range [1..65535]"
          (complain (is_blank c.server.host) "server.host is required" []))))

-- (Config).Validate
unfoldable pub validate : Config → Option String
validate c = report (config_errors c)

pub data ConfigError : Type 0 where
  path_required : ConfigError
  read_failed unmarshal_failed invalid no_absolute_path : String → ConfigError

-- The end of Load: the check, and then the absolute path.
abbrev pub finish_load :
    Config → Option String → Result String String → Result ConfigError (Config × String)
finish_load c (some message) absolute = err (invalid message)
finish_load c none (err e) = err (no_absolute_path e)
finish_load c none (ok path) = ok (c, path)

abbrev pub load_read :
    Result ConfigError Config → Result String String → Result ConfigError (Config × String)
load_read (err e) absolute = err e
load_read (ok c) absolute = finish_load (normalize c) (validate (normalize c)) absolute

-- Load: `read` is what viper reads, with its defaults, or its error.
unfoldable pub load :
    (String → Result ConfigError Config)
    → (String → Result String String)
    → String
    → Result ConfigError (Config × String)
load read absolute path =
    if is_blank path then err path_required else load_read (read path) (absolute path)

-- Why ResolvePath gives no path.
pub data PathError : Type 0 where
  empty_path : PathError
  not_resolved not_resolved_beside : String → PathError

abbrev pub wrapped : (String → PathError) → Result String String → Result PathError String
wrapped wrap (ok path) = ok path
wrapped wrap (err e) = err (wrap e)

unfoldable pub resolve_path : Paths → String → String → Result PathError String
resolve_path paths config_file_path configured_path =
    let path = trim_space configured_path in
    if path == ""
    then err empty_path
    else if paths.is_abs path
    then ok path
    else if paths.exists path
    then wrapped not_resolved (paths.absolute path)
    else wrapped not_resolved_beside (paths.absolute (paths.beside config_file_path path))
