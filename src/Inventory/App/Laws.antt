-- ===== src/Inventory/App/Laws.antt =====
-- What the service serves, from its start on and over its later syncs.
use infrastructure_managemen.Common.Logger.{new_logger}
use infrastructure_managemen.Common.{
  ℕ, zero, suc, String, ◌≡◌, refl, sym, subst, true, Option, none, some, List, if_both,
  Option-cases, inl, inr, All, Result, ok, err, bind-eq-ok,
}
use infrastructure_managemen.Common.Int.{pos, leb_ℤ}
use infrastructure_managemen.Inventory.Bootstrap
use infrastructure_managemen.Inventory.Bootstrap.{
  BootstrapError, validate, checked, load_parsed, load_read,
}
use infrastructure_managemen.Inventory.Bootstrap.Laws.{AreValid, validate_iff}
use infrastructure_managemen.Inventory.Config
use infrastructure_managemen.Inventory.Config.{Config, resolve_path}
use infrastructure_managemen.Inventory.Domain.{HostSeed, InventoryMetadata, clone_snapshot}
use infrastructure_managemen.Inventory.Domain.Clones.{HasMaps, clone_hosts-HasMaps}
use infrastructure_managemen.Inventory.Store.{
  Store, new_store, set_ready, replace, get_snapshot, is_ready,
}
use infrastructure_managemen.Inventory.Sync.{Env, Collected, normalize_seeds, sync, finish_sync}
use infrastructure_managemen.Inventory.Sync.Snapshot.{IsSynced, sync-IsSynced, sync-eq}
use infrastructure_managemen.Inventory.Cadvisor.Source.{Link}
use infrastructure_managemen.Inventory.App.{
  StartError, no_logger, not_configured, not_resolved, not_loaded, Started, Setup, build_sources,
  synced, prepare, first_sync, start_service, run_ticks, run_scheduler,
}
use infrastructure_managemen.Common.Clock.{Time}

checked-AreValid :
    (hosts seeds : List HostSeed) (verdict : Option BootstrapError)
    → validate hosts ≡ verdict
    → checked hosts verdict ≡ ok seeds
    → AreValid seeds
checked-AreValid hosts seeds none valid h =
    let same : hosts ≡ seeds = cc in subst AreValid same ((validate_iff hosts).0 valid)
checked-AreValid hosts seeds (some e) valid h = absurd (cc)

parsed-AreValid :
    (r : Result String (List HostSeed)) (seeds : List HostSeed)
    → load_parsed r ≡ ok seeds
    → AreValid seeds
parsed-AreValid (err e) seeds h = absurd (cc)
parsed-AreValid (ok hosts) seeds h = checked-AreValid hosts seeds (validate hosts) refl h

read-AreValid :
    {Bytes : Type 0} (unmarshal : Bytes → Result String (List HostSeed)) (r : Result String Bytes)
    (seeds : List HostSeed)
    → load_read unmarshal r ≡ ok seeds
    → AreValid seeds
read-AreValid unmarshal (err e) seeds h = absurd (cc)
read-AreValid unmarshal (ok content) seeds h = parsed-AreValid (unmarshal content) seeds h

load-AreValid :
    {Bytes : Type 0} (read_file : String → Result String Bytes)
    (unmarshal : Bytes → Result String (List HostSeed)) (path : String) (seeds : List HostSeed)
    → Bootstrap.load read_file unmarshal path ≡ ok seeds
    → AreValid seeds
unfolding Bootstrap.load
load-AreValid read_file unmarshal path seeds h = read-AreValid unmarshal (read_file path) seeds h

module _ (env : Env) (link : Link env.World) (quote : String → String) where
  open env use {World}

  -- A ready store that a complete sync of valid seeds filled.
  pub record IsServing (started : Started) (store : Store) : Type 0 where
    pub loaded : List HostSeed
    pub valid : AreValid loaded
    pub normal : started.seeds ≡ normalize_seeds loaded
    pub previous : InventoryMetadata
    pub synced :
        IsSynced
          (build_sources env link quote started.config)
          started.seeds
          previous
          (get_snapshot store)
    pub maps : All HasMaps store.snapshot.hosts
    pub ready : is_ready store ≡ true

  finish_sync-HasMaps :
      (t : Time) (reply : Result String Collected) (store : Store) (w : World)
      → (finish_sync env t reply store w).0 ≡ none
      → All HasMaps (finish_sync env t reply store w).1.snapshot.hosts
        × ((finish_sync env t reply store w).1.ready ≡ store.ready)
  unfolding finish_sync replace clone_snapshot
  finish_sync-HasMaps t (err e) store w h = absurd (cc)
  finish_sync-HasMaps t (ok c) store w h = (clone_hosts-HasMaps c.hosts, refl)

  sync-HasMaps :
      (cfg : Config) (seeds : List HostSeed) (store : Store) (w : World)
      → let done = sync env (build_sources env link quote cfg) seeds store w in
        done.0 ≡ none → All HasMaps done.1.snapshot.hosts × (done.1.ready ≡ store.ready)
  unfolding sync
  sync-HasMaps cfg seeds store w h = finish_sync-HasMaps _ _ store _ h

  sync-IsServing :
      (started : Started) (store : Store) (w : World)
      → IsServing started store
      → IsServing started
          (sync env (build_sources env link quote started.config) started.seeds store w).1
  unfolding is_ready
  sync-IsServing started store w s =
      let sources = build_sources env link quote started.config in
      elim (Option-cases (sync env sources started.seeds store w).0) [
        | inl done ↦
            let (maps, same) = sync-HasMaps started.config started.seeds store w done in
            record {
              loaded = s.loaded;
              valid = s.valid;
              normal = s.normal;
              previous = (get_snapshot store).metadata;
              synced = sync-IsSynced env sources started.seeds store w done;
              maps = maps;
              ready = let r = s.ready in cc;
            }
        | inr (message, failed) ↦
            subst (IsServing started)
              (sym (sync-eq env sources started.seeds store w message failed)) s
      ]

  run_ticks-IsServing :
      (started : Started) (ticks : ℕ) (store : Store) (w : World)
      → IsServing started store
      → IsServing started (run_ticks env link quote started ticks store w).0
  unfolding run_ticks
  run_ticks-IsServing started zero store w s = s
  run_ticks-IsServing started (suc ticks) store w s =
      run_ticks-IsServing started ticks _ _ (sync-IsServing started store w s)

  synced-IsServing :
      (cfg : Config) (host_seeds seeds : List HostSeed) (started : Started) (store : Store)
      (error : Option String) (w w' : World)
      → AreValid host_seeds
      → seeds ≡ normalize_seeds host_seeds
      → (error ≡ none
          → (m : InventoryMetadata) × (IsSynced
                (build_sources env link quote cfg)
                seeds
                m
                (get_snapshot store)
              × All HasMaps store.snapshot.hosts))
      → synced env link quote cfg seeds (error, store, w) ≡ (ok started, w')
      → IsServing started started.store
  unfolding set_ready is_ready get_snapshot
  synced-IsServing cfg host_seeds seeds started store (some e) w w' valid normal done h =
      absurd (cc)
  synced-IsServing cfg host_seeds seeds started store none w w' valid normal done h =
      let (m, (filled, maps)) = done refl in
      let fresh : Started = record { config = cfg; seeds = seeds; store = set_ready true store } in
      let same : fresh ≡ started = cc in
      subst (λ (s : Started). IsServing s s.store) same
        (record {
          loaded = host_seeds;
          valid = valid;
          normal = normal;
          previous = m;
          synced = filled;
          maps = maps;
          ready = refl;
        })

  module _ {Bytes : Type 0} (setup : Setup Bytes) where
    prepare-AreValid :
        (config_path : String) (cfg : Config) (seeds : List HostSeed)
        → prepare env link quote setup config_path ≡ ok (cfg, seeds)
        → AreValid seeds
    unfolding prepare
    prepare-AreValid config_path cfg seeds h =
        let (configured, loaded, h₁) =
          bind-eq-ok not_configured (Config.load setup.read setup.paths.absolute config_path) _
            (cfg, seeds) h in
        let (log, logged, h₁') =
          bind-eq-ok no_logger (new_logger setup.build configured.0.logging.level) _ (cfg, seeds)
            h₁ in
        let (path, resolved, h₂) =
          bind-eq-ok not_resolved
            (resolve_path setup.paths configured.1 configured.0.bootstrap.self_provisioning_path) _
            (cfg, seeds) h₁' in
        let (found, valid, h₃) =
          bind-eq-ok not_loaded (Bootstrap.load setup.read_file setup.unmarshal path) _ (cfg, seeds)
            h₂ in
        let same : found ≡ seeds = cc in
        subst AreValid same (load-AreValid setup.read_file setup.unmarshal path found valid)

    prepared-IsServing :
        (config_path : String) (w w' : World) (started : Started)
        (r : Result StartError (Config × List HostSeed))
        → prepare env link quote setup config_path ≡ r
        → first_sync env link quote r w ≡ (ok started, w')
        → IsServing started started.store
    prepared-IsServing config_path w w' started (err e) p h = absurd (cc)
    prepared-IsServing config_path w w' started (ok (cfg, host_seeds)) p h =
        let sources = build_sources env link quote cfg in
        let seeds = normalize_seeds host_seeds in
        synced-IsServing cfg host_seeds seeds started (sync env sources seeds new_store w).1
          (sync env sources seeds new_store w).0 (sync env sources seeds new_store w).2 w'
          (prepare-AreValid config_path cfg host_seeds p) refl
          (λ e. (
            (get_snapshot new_store).metadata,
            (
              sync-IsSynced env sources seeds new_store w e,
              (sync-HasMaps cfg seeds new_store w e).0,
            ),
          ))
          h

    start_service-IsServing :
        (config_path : String) (w w' : World) (started : Started)
        → start_service env link quote setup config_path w ≡ (ok started, w')
        → IsServing started started.store
    unfolding start_service
    start_service-IsServing config_path w w' started h =
        prepared-IsServing config_path w w' started (prepare env link quote setup config_path) refl
          h

    -- Where the service gets as far as serving, then after any number of the scheduler's ticks, whatever the syncs
    -- come to, the store is ready, the loaded seeds are valid, and the snapshot is the one of a complete sync of
    -- those seeds, as NewService normalizes them: each seed has its host in order with its status, and the counts agree with the hosts.
    pub run_scheduler-IsServing :
        (config_path : String) (w w' : World) (started : Started) (ticks : ℕ)
        → start_service env link quote setup config_path w ≡ (ok started, w')
        → IsServing started (run_scheduler env link quote started ticks w').0
    unfolding run_scheduler
    run_scheduler-IsServing config_path w w' started ticks h =
        let s = start_service-IsServing config_path w w' started h in
        if_both (λ (r : Store × World). IsServing started r.0)
          (leb_ℤ started.config.sync.interval (pos 0)) _ _ s
          (run_ticks-IsServing started ticks started.store w' s)
