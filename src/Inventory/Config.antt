-- ===== src/Inventory/Config.antt =====
-- InventorySvc/internal/config/config.go. Viper and the file system are arguments.
use Prim.Native.String.{◌++◌ as concat}
use infrastructure_managemen.Common.{
  String, Bool, not, Option, none, some, List, [], ◌==◌, if◌then◌else◌, Result, ok, err,
}
use package.text.Mathlib.Text.{starts_with}
use infrastructure_managemen.Common.Int.{ℤ, pos, leb_ℤ}
use infrastructure_managemen.Common.Text.{trim_space}
use infrastructure_managemen.Common.Paths.{trim_suffix_slash}
use infrastructure_managemen.Common.Checks.{complain, is_blank, bad_port, or_default, report}
use infrastructure_managemen.Common.Resolve.{Paths}
use infrastructure_managemen.Common.Clock.{Duration}

pub record CadvisorConfig : Type 0 where
  pub is_enabled : Bool
  pub include_system_workloads : Bool
  pub scheme : String
  pub port : ℤ
  pub base_path : String
  pub containers_path : String
  pub timeout : Duration
  pub url_template : String

pub record ToggleOnlySource : Type 0 where
  pub is_enabled : Bool

pub record SourcesConfig : Type 0 where
  pub cadvisor : CadvisorConfig
  pub netbox : ToggleOnlySource
  pub other_sources : ToggleOnlySource

pub record ServerConfig : Type 0 where
  pub port : ℤ

pub record LoggingConfig : Type 0 where
  pub level : String

pub record SyncConfig : Type 0 where
  pub interval : Duration

pub record BootstrapConfig : Type 0 where
  pub self_provisioning_path : String

pub record Config : Type 0 where
  pub server : ServerConfig
  pub logging : LoggingConfig
  pub sync : SyncConfig
  pub sources : SourcesConfig
  pub bootstrap : BootstrapConfig

abbrev pub default_cadvisor_url_template : String
default_cadvisor_url_template = "{{scheme}}://{{fqdn}}:{{port}}{{basePath}}{{containersPath}}"

unfoldable pub rooted : String → String
rooted path = if not (starts_with path "/") then concat "/" path else path

-- normalizeCAdvisorConfig
unfoldable pub normalize_cadvisor_config : CadvisorConfig → CadvisorConfig
normalize_cadvisor_config cfg = record cfg {
  scheme = or_default (trim_space cfg.scheme) "http";
  base_path = trim_suffix_slash (rooted (or_default cfg.base_path "/"));
  containers_path = rooted (or_default cfg.containers_path "/subcontainers/");
  url_template =
      if trim_space cfg.url_template == "" then default_cadvisor_url_template else cfg.url_template;
}

unfoldable pub check_cadvisor : CadvisorConfig → List String → List String
check_cadvisor cfg errs =
    if cfg.is_enabled
    then complain (is_blank cfg.url_template)
        "sources.cadvisor.urlTemplate is required when cAdvisor is enabled"
        (complain (leb_ℤ cfg.timeout (pos 0)) "sources.cadvisor.timeout must be > 0"
          (complain (bad_port cfg.port) "sources.cadvisor.port must be in range [1..65535]" errs))
    else errs

unfoldable pub config_errors : Config → List String
config_errors c = check_cadvisor c.sources.cadvisor (
    complain (is_blank c.bootstrap.self_provisioning_path)
      "bootstrap.selfProvisioningPath is required"
      (complain (is_blank c.logging.level) "logging.level is required" (
        complain (leb_ℤ c.sync.interval (pos 0)) "sync.interval must be > 0"
          (complain (bad_port c.server.port) "server.port must be in range [1..65535]" []))))

-- (Config).Validate
unfoldable pub validate : Config → Option String
validate c = report (config_errors c)

unfoldable pub normalize : Config → Config
normalize c = record c {
  sources = record c.sources { cadvisor = normalize_cadvisor_config c.sources.cadvisor };
}

pub data ConfigError : Type 0 where
  path_required : ConfigError
  read_failed unmarshal_failed invalid no_absolute_path : String → ConfigError

-- The end of Load: the check, and then the absolute path.
abbrev pub finish_load :
    Config → Option String → Result String String → Result ConfigError (Config × String)
finish_load c (some message) absolute = err (invalid message)
finish_load c none (err e) = err (no_absolute_path e)
finish_load c none (ok path) = ok (c, path)

abbrev pub load_read :
    Result ConfigError Config → Result String String → Result ConfigError (Config × String)
load_read (err e) absolute = err e
load_read (ok c) absolute = finish_load (normalize c) (validate (normalize c)) absolute

-- Load: `read` is what viper reads, with its defaults, or its error.
unfoldable pub load :
    (String → Result ConfigError Config)
    → (String → Result String String)
    → String
    → Result ConfigError (Config × String)
load read absolute path =
    if is_blank path then err path_required else load_read (read path) (absolute path)

-- Why ResolvePath gives no path.
pub data PathError : Type 0 where
  empty_path : PathError
  not_resolved not_resolved_beside : String → PathError

abbrev pub wrapped : (String → PathError) → Result String String → Result PathError String
wrapped wrap (ok path) = ok path
wrapped wrap (err e) = err (wrap e)

unfoldable pub resolve_path : Paths → String → String → Result PathError String
resolve_path paths config_file_path configured_path =
    let path = trim_space configured_path in
    if path == ""
    then err empty_path
    else if paths.is_abs path
    then ok path
    else if paths.exists path
    then wrapped not_resolved (paths.absolute path)
    else wrapped not_resolved_beside (paths.absolute (paths.beside config_file_path path))
