-- ===== src/Inventory/Sync.antt =====
-- InventorySvc/internal/service/inventory/service.go: the sync of all hosts. The clock, the context and
-- the sources are an environment with a state of its own; the log is not modelled.
pub mod Counts
pub mod Snapshot
use Prim.Native.String.{◌++◌ as concat}
use infrastructure_managemen.Common.{
  ℕ, ◌+◌, String, Bool, true, false, not, ◌&&◌, Option, none, some, List, [], ◌∷◌, ◌++◌,
  if◌then◌else◌, eqb, ltb, length, Result, ok, err,
}
use infrastructure_managemen.Common.Int.{ℤ}
use infrastructure_managemen.Common.Text.{trim_space}
use infrastructure_managemen.Common.Maps.{Map, insert, copy}
use infrastructure_managemen.Common.Clock.{Time, Duration, sub, utc, after, milliseconds}
use infrastructure_managemen.Inventory.Domain.{
  HostStatus, SourceStatusType, HostSeed, Workload, SourceData, SourceStatus, Host,
  InventoryMetadata, InventorySnapshot,
}
use infrastructure_managemen.Inventory.Store
use infrastructure_managemen.Inventory.Store.{get_snapshot, replace}

-- type HostSource interface, over what lies outside of the service
pub record HostSource (W : Type 0) : Type 0 where
  pub name : String
  pub enabled : Bool
  pub collect_host : HostSeed → W → Result String SourceData × W

-- The clock, and whether the context is done, with its error.
pub record Env : Type 1 where
  pub World : Type 0
  pub now : World → Time × World
  pub done : World → Option String × World

-- cloneLabels; a nil map is cloned to an empty one
unfoldable pub clone_labels : Option (Map String) → Map String
clone_labels none = []
clone_labels (some labels) = copy labels

-- cloneWorkloads of the service, which also drops the monotonic readings
unfoldable pub utc_workload : Workload → Workload
utc_workload w = record w {
  last_seen_at = elim w.last_seen_at [ none ↦ none | some t ↦ some (utc t) ];
}

unfoldable pub clone_workloads : List Workload → List Workload
clone_workloads [] = []
clone_workloads (w ∷ ws) = utc_workload w ∷ clone_workloads ws

-- timePtr
abbrev pub time_ptr : Time → Option Time
time_ptr t = some (utc t)

-- A seed as NewService keeps it.
unfoldable pub normalize_seed : HostSeed → HostSeed
normalize_seed host = record {
  id = trim_space host.id;
  fqdn = trim_space host.fqdn;
  labels = some (clone_labels host.labels);
}

unfoldable pub normalize_seeds : List HostSeed → List HostSeed
normalize_seeds [] = []
normalize_seeds (h ∷ hs) = normalize_seed h ∷ normalize_seeds hs

-- The host and the three counters of the loop over the sources.
pub record Progress : Type 0 where
  pub host : Host
  pub enabled_sources : ℕ
  pub successful_sources : ℕ
  pub failed_sources : ℕ

unfoldable pub start_host : HostSeed → Progress
start_host seed = record {
  host = record {
    id = seed.id;
    fqdn = seed.fqdn;
    labels = clone_labels seed.labels;
    workloads = [];
    last_observed_at = none;
    status = HostStatus.bootstrap_only;
    source_status = [];
    errors = [];
  };
  enabled_sources = 0;
  successful_sources = 0;
  failed_sources = 0;
}

unfoldable pub note_disabled : String → Progress → Progress
note_disabled name p = record p {
  host = record p.host {
    source_status =
        insert name
          (record {
            source = name;
            enabled = false;
            status = SourceStatusType.disabled;
            observed_at = none;
            error = "";
          })
          p.host.source_status;
  };
}

unfoldable pub note_failure : String → String → Progress → Progress
note_failure name message p = record p {
  host = record p.host {
    source_status =
        insert name
          (record {
            source = name;
            enabled = true;
            status = SourceStatusType.error;
            observed_at = none;
            error = message;
          })
          p.host.source_status;
    errors = p.host.errors ++ concat name (concat ": " message) ∷ [];
  };
  enabled_sources = p.enabled_sources + 1;
  failed_sources = p.failed_sources + 1;
}

-- The later of the observation times.
unfoldable pub latest : Time → Option Time → Option Time
latest observed none = some observed
latest observed (some last) = if after observed last then some observed else some last

unfoldable pub note_data : String → SourceData → Progress → Progress
note_data name collected p = record p {
  host = record p.host {
    source_status =
        insert name
          (record {
            source = name;
            enabled = true;
            status = SourceStatusType.ok;
            observed_at = some (utc collected.observed_at);
            error = "";
          })
          p.host.source_status;
    workloads = p.host.workloads ++ clone_workloads collected.workloads;
    last_observed_at = latest (utc collected.observed_at) p.host.last_observed_at;
  };
  enabled_sources = p.enabled_sources + 1;
  successful_sources = p.successful_sources + 1;
}

unfoldable pub note_reply : String → Result String SourceData → Progress → Progress
note_reply name (ok collected) p = note_data name collected p
note_reply name (err message) p = note_failure name message p

-- The status that the `switch` at the end of a host's turn chooses.
unfoldable pub classify : Progress → HostStatus
classify p =
    if eqb p.enabled_sources 0
    then HostStatus.bootstrap_only
    else if ltb 0 p.failed_sources && ltb 0 p.successful_sources
    then HostStatus.partial
    else if ltb 0 p.failed_sources && eqb p.successful_sources 0
    then HostStatus.error
    else HostStatus.ok

-- Whether the `switch` counts the host as failed.
unfoldable pub is_failure : HostStatus → Bool
is_failure HostStatus.partial = true
is_failure HostStatus.error = true
is_failure HostStatus.ok = false
is_failure HostStatus.bootstrap_only = false

-- The hosts so far, and how many of them failed.
pub record Collected : Type 0 where
  pub hosts : List Host
  pub failed_hosts : ℕ

unfoldable pub add_host : Host → Collected → Collected
add_host host c = record {
  hosts = c.hosts ++ host ∷ [];
  failed_hosts = if is_failure host.status then c.failed_hosts + 1 else c.failed_hosts;
}

unfoldable pub metadata_of : ℕ → ℕ → Time → ℤ → InventoryMetadata → InventoryMetadata
metadata_of total failed finished_at duration_ms previous =
    let is_partial = ltb 0 failed in
    record {
      is_partial = is_partial;
      total_hosts = total;
      failed_hosts = failed;
      last_sync_at = time_ptr finished_at;
      last_successful_sync_at =
          if ltb 0 total then time_ptr finished_at else previous.last_successful_sync_at;
      last_full_sync_at = if is_partial then previous.last_full_sync_at else time_ptr finished_at;
      last_partial_sync_at =
          if is_partial then time_ptr finished_at else previous.last_partial_sync_at;
      sync_duration_ms = duration_ms;
    }

module _ (env : Env) where
  open env use {World, now, done}

  -- The Boolean is `source.Enabled()`.
  unfoldable pub collect_if :
      Bool → HostSource World → HostSeed → Progress → World → Progress × World
  collect_if false source seed p w = (note_disabled source.name p, w)
  collect_if true source seed p w =
      let (reply, w') = source.collect_host seed w in (note_reply source.name reply p, w')

  unfoldable pub collect_source : HostSource World → HostSeed → Progress → World → Progress × World
  collect_source source = collect_if source.enabled source

  unfoldable pub collect_sources :
      List (HostSource World) → HostSeed → Progress → World → Progress × World
  collect_sources [] seed p w = (p, w)
  collect_sources (source ∷ sources) seed p w =
      let (p', w') = collect_source source seed p w in collect_sources sources seed p' w'

  -- One turn of the loop over the hosts.
  unfoldable pub collect_host : List (HostSource World) → HostSeed → World → Host × World
  collect_host sources seed w =
      let (p, w') = collect_sources sources seed (start_host seed) w in
      (record (p.host) { status = classify p }, w')

  -- The loop over the hosts; the context's error ends it.
  unfoldable pub collect_hosts :
      List (HostSource World) → List HostSeed → Collected → World → Result String Collected × World
  collect_hosts sources [] c w = (ok c, w)
  collect_hosts sources (seed ∷ seeds) c w =
      let (cancelled, w₁) = done w in
      elim cancelled [
        | some error ↦ (err error, w₁)
        | none ↦
            let (host, w₂) = collect_host sources seed w₁ in
            collect_hosts sources seeds (add_host host c) w₂
      ]

  -- The end of a sync. The code reads the previous snapshot at its start; nothing of the loop changes the
  -- store, so that it is read here.
  unfoldable pub finish_sync :
      Time → Result String Collected → Store.Store → World → Option String × Store.Store × World
  finish_sync started_at (err error) store w = (some error, store, w)
  finish_sync started_at (ok c) store w =
      let (t, w₁) = now w in
      let (t', w₂) = now w₁ in
      let metadata =
        metadata_of (length c.hosts) c.failed_hosts (utc t) (milliseconds (sub t' started_at))
          (get_snapshot store).metadata in
      (none, replace (record { hosts = c.hosts; metadata = metadata }) store, w₂)

  -- (*Service).Sync; the error is `none` where Go's is nil
  unfoldable pub sync :
      List (HostSource World)
      → List HostSeed
      → Store.Store
      → World
      → Option String × Store.Store × World
  sync sources seeds store w =
      let (t, w₁) = now w in
      let (collected, w₂) =
        collect_hosts sources seeds (record { hosts = []; failed_hosts = 0 }) w₁ in
      finish_sync (utc t) collected store w₂
