-- ===== src/Parser/App/Laws.antt =====
-- What the store of a started service holds.
use infrastructure_managemen.Common.Logger.{Build, new_logger}
use infrastructure_managemen.Common.{
  ℕ, String, ◌≡◌, ◌↔◌, ◌<◌, subst, true, List, All, Result, ok, length, bind-eq-ok,
}
use infrastructure_managemen.Common.Clock.{Time}
use infrastructure_managemen.Common.Resolve.{Paths}
use infrastructure_managemen.Parser.Config.{Config, ConfigError, load, resolve_path}
use infrastructure_managemen.Parser.Loader.{FileSet, Files, discover_files, load_file}
use infrastructure_managemen.Parser.Values.{Floats}
use infrastructure_managemen.Parser.Manifest.{StructurizrManifest}
use infrastructure_managemen.Parser.Load.{serve}
use infrastructure_managemen.Parser.Load.Laws.{
  IsLoaded, load_desired_state-IsLoaded, get_snapshot-serve,
}
use infrastructure_managemen.Parser.Load.Ids.{AreUnique, load_desired_state-AreUnique}
use infrastructure_managemen.Parser.Domain.{clone_snapshot, clone_state}
use infrastructure_managemen.Parser.Domain.Clones.{HasMap, clone_hosts-HasMap}
use infrastructure_managemen.Parser.Store.{Store, set_ready, replace, get_snapshot, is_ready}
use infrastructure_managemen.Parser.App.{
  not_configured, no_logger, not_resolved, not_discovered, serve_files, start_service,
}

-- A store that was filled from the files of a path.
pub record IsServed {Bytes : Type 0} (files : Files Bytes) (store : Store) : Type 0 where
  pub mode : String
  pub path : String
  pub set : FileSet
  pub discovered : discover_files files mode path ≡ ok set
  pub loaded : IsLoaded (length set.json_files) (length set.ignored_files) (get_snapshot store)
  pub unique : AreUnique (get_snapshot store).state.hosts
  pub maps : All HasMap store.snapshot.state.hosts
  pub ready : (is_ready store ≡ true) ↔ (0 < (get_snapshot store).metadata.files_loaded)

module _ (floats : Floats) {Bytes : Type 0} (files : Files Bytes) (paths : Paths)
    (unmarshal : Bytes → Result String (StructurizrManifest floats.Float))
    (read : String → Result ConfigError Config) (build : Build) where
  serve-HasMap :
      (now : Time) (json_files : List String) (mode path : String) (ignored : ℕ)
      → All HasMap
          (serve floats
            (load_file files)
            unmarshal
            now
            json_files
            mode
            path
            ignored).snapshot.state.hosts
  unfolding serve set_ready replace clone_snapshot clone_state
  serve-HasMap now json_files mode path ignored = clone_hosts-HasMap _

  serve_files-IsServed :
      (now : Time) (cfg : Config) (path : String) (set : FileSet)
      → discover_files files cfg.manifests.mode path ≡ ok set
      → IsServed files (serve_files floats files paths unmarshal read build now cfg path set)
  unfolding serve_files
  serve_files-IsServed now cfg path set found =
      let mode = cfg.manifests.mode in
      let ignored = length set.ignored_files in
      let (ready, same, _) =
        get_snapshot-serve floats (load_file files) unmarshal now set.json_files mode path ignored
          "" in
      record {
        mode = mode;
        path = path;
        set = set;
        discovered = found;
        loaded = rw same (
            load_desired_state-IsLoaded floats (load_file files) unmarshal now set.json_files mode
              path ignored);
        unique = rw same (
            load_desired_state-AreUnique floats (load_file files) unmarshal now set.json_files mode
              path ignored);
        maps = serve-HasMap now set.json_files mode path ignored;
        ready = rw same ready;
      }

  -- Where the service gets as far as serving, its store holds what the files that were found gave: the loaded
  -- and the broken files make up the JSON files found, the counts are those of the hosts, every host and its
  -- workloads pass the validator, no two hosts share an identifier, and the store is ready exactly when a file
  -- was loaded.
  pub start_service-IsServed :
      (now : Time) (config_path : String) (store : Store)
      → start_service floats files paths unmarshal read build now config_path ≡ ok store
      → IsServed files store
  unfolding start_service
  start_service-IsServed now config_path store h =
      let (configured, loaded, h₁) =
        bind-eq-ok not_configured (load read paths.absolute config_path) _ store h in
      let (log, logged, h₁') =
        bind-eq-ok no_logger (new_logger build configured.0.logging.level) _ store h₁ in
      let (path, resolved, h₂) =
        bind-eq-ok not_resolved (resolve_path paths configured.1 configured.0.manifests.path) _
          store h₁' in
      let (set, found, h₃) =
        bind-eq-ok not_discovered (discover_files files configured.0.manifests.mode path) _ store
          h₂ in
      subst (IsServed files) (cc) (serve_files-IsServed now configured.0 path set found)
