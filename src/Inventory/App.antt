-- ===== src/Inventory/App.antt =====
-- Run of InventorySvc/internal/app/app.go, up to the store that its HTTP server reads, and the later syncs of
-- InventorySvc/internal/scheduler/scheduler.go. The log and the server are left out.
pub mod Laws
pub mod Tests
use infrastructure_managemen.Common.Logger.{LoggerError, Build, new_logger}
use infrastructure_managemen.Common.{
  ℕ, zero, suc, String, true, Option, none, some, List, [], ◌∷◌, if◌then◌else◌, Result, ok, err,
  ◌>>=◌, map_err,
}
use infrastructure_managemen.Common.Int.{pos, leb_ℤ}
use infrastructure_managemen.Common.Clock.{Duration}
use infrastructure_managemen.Common.Resolve.{Paths}
use infrastructure_managemen.Inventory.Config.{Config, ConfigError, PathError, resolve_path}
use infrastructure_managemen.Inventory.Config
use infrastructure_managemen.Inventory.Bootstrap
use infrastructure_managemen.Inventory.Bootstrap.{BootstrapError}
use infrastructure_managemen.Inventory.Domain.{HostSeed}
use infrastructure_managemen.Inventory.Store.{Store, new_store, set_ready}
use infrastructure_managemen.Inventory.Sync.{Env, HostSource, sync, normalize_seeds}
use infrastructure_managemen.Inventory.Cadvisor.Source.{Link, new_source, placeholder_source}

pub data StartError : Type 0 where
  not_configured : ConfigError → StartError
  no_logger : LoggerError → StartError
  not_resolved : PathError → StartError
  not_loaded : BootstrapError → StartError
  not_synced : String → StartError

-- What Run starts to serve: the seeds are those of the service, as NewService normalizes them.
pub record Started : Type 0 where
  pub config : Config
  pub seeds : List HostSeed
  pub store : Store

-- The file system, what viper reads, the loggers of zap, and what the self-provisioning file holds.
pub record Setup (Bytes : Type 0) : Type 0 where
  pub paths : Paths
  pub read : String → Result ConfigError Config
  pub build : Build
  pub read_file : String → Result String Bytes
  pub unmarshal : Bytes → Result String (List HostSeed)

module _ (env : Env) (link : Link env.World) (quote : String → String) where
  open env use {World}

  unfoldable pub build_sources : Config → List (HostSource World)
  build_sources cfg =
      new_source link cfg.sources.cadvisor
      ∷ placeholder_source quote "netbox" cfg.sources.netbox.is_enabled
      ∷ placeholder_source quote "otherSources" cfg.sources.other_sources.is_enabled
      ∷ []

  -- The end of Run's start, after the initial sync.
  abbrev pub synced :
      Config → List HostSeed → Option String × Store × World → Result StartError Started × World
  synced cfg seeds (some e, store, w) = (err (not_synced e), w)
  synced cfg seeds (none, store, w) =
      (ok (record { config = cfg; seeds = seeds; store = set_ready true store }), w)

  unfoldable pub prepare :
      {Bytes : Type 0} → Setup Bytes → String → Result StartError (Config × List HostSeed)
  prepare setup config_path = do
    (cfg, cfg_file_path) ←
        map_err not_configured (Config.load setup.read setup.paths.absolute config_path)
    log ← map_err no_logger (new_logger setup.build cfg.logging.level)
    path ←
        map_err not_resolved
          (resolve_path setup.paths cfg_file_path cfg.bootstrap.self_provisioning_path)
    seeds ← map_err not_loaded (Bootstrap.load setup.read_file setup.unmarshal path)
    ok (cfg, seeds)

  abbrev pub first_sync :
      Result StartError (Config × List HostSeed) → World → Result StartError Started × World
  first_sync (err e) w = (err e, w)
  first_sync (ok (cfg, host_seeds)) w =
      let seeds = normalize_seeds host_seeds in
      synced cfg seeds (sync env (build_sources cfg) seeds new_store w)

  unfoldable pub start_service :
      {Bytes : Type 0} → Setup Bytes → String → World → Result StartError Started × World
  start_service setup config_path w = first_sync (prepare setup config_path) w

  -- The loop of the scheduler over so many ticks; the error of a sync is logged only.
  unfoldable pub run_ticks : Started → ℕ → Store → World → Store × World
  run_ticks started zero store w = (store, w)
  run_ticks started (suc ticks) store w =
      let (error, store', w') = sync env (build_sources started.config) started.seeds store w in
      run_ticks started ticks store' w'

  -- (*Scheduler).Start, until the context ends after so many ticks
  unfoldable pub run_scheduler : Started → ℕ → World → Store × World
  run_scheduler started ticks w =
      if leb_ℤ started.config.sync.interval (pos 0)
      then (started.store, w)
      else run_ticks started ticks started.store w
