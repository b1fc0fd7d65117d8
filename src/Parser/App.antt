-- ===== src/Parser/App.antt =====
-- Run of ParserSvc/internal/app/app.go, up to the store that its HTTP server reads. The log and the server
-- are left out.
pub mod Laws
pub mod Tests
use infrastructure_managemen.Common.Logger.{LoggerError, Build, new_logger}
use infrastructure_managemen.Common.{ℕ, String, Result, ok, err, ◌>>=◌, map_err, length}
use infrastructure_managemen.Common.Clock.{Time}
use infrastructure_managemen.Common.Resolve.{Paths}
use infrastructure_managemen.Parser.Config.{Config, ConfigError, PathError, load, resolve_path}
use infrastructure_managemen.Parser.Loader.{FileSet, Files, discover_files, load_file}
use infrastructure_managemen.Parser.Values.{Floats}
use infrastructure_managemen.Parser.Manifest.{StructurizrManifest}
use infrastructure_managemen.Parser.Load.{serve}
use infrastructure_managemen.Parser.Store.{Store}

pub data StartError : Type 0 where
  not_configured : ConfigError → StartError
  no_logger : LoggerError → StartError
  not_resolved : PathError → StartError
  not_discovered : String → StartError

module _ (floats : Floats) {Bytes : Type 0} (files : Files Bytes) (paths : Paths)
    (unmarshal : Bytes → Result String (StructurizrManifest floats.Float))
    (read : String → Result ConfigError Config) (build : Build) where
  -- The store for a configuration, its resolved path and the files found there; `now` is the clock's reading.
  unfoldable pub serve_files : Time → Config → String → FileSet → Store
  serve_files now cfg path set =
      serve floats (load_file files) unmarshal now set.json_files cfg.manifests.mode path
        (length set.ignored_files)

  unfoldable pub start_service : Time → String → Result StartError Store
  start_service now config_path = do
    (cfg, cfg_file_path) ← map_err not_configured (load read paths.absolute config_path)
    log ← map_err no_logger (new_logger build cfg.logging.level)
    path ← map_err not_resolved (resolve_path paths cfg_file_path cfg.manifests.path)
    set ← map_err not_discovered (discover_files files cfg.manifests.mode path)
    ok (serve_files now cfg path set)
