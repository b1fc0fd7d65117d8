-- ===== src/Parser/Store.antt =====
-- ParserSvc/internal/store/memory/store.go; each method holds the store's lock from end to end.
pub mod Laws
use infrastructure_managemen.Common.{String, Bool, false, Option, none, some, List, [], ◌∷◌}
use infrastructure_managemen.Common.Clock.{zero_time}
use infrastructure_managemen.Common.Maps.{Map, lookup, insert}
use infrastructure_managemen.Parser.Domain.{
  DesiredHost, Snapshot, SnapshotMetadata, clone_host, clone_snapshot,
}

pub record Store : Type 0 where
  pub snapshot : Snapshot
  pub hosts_by_id : Map DesiredHost
  pub ready : Bool

abbrev pub empty_metadata : SnapshotMetadata
empty_metadata = record {
  loaded_at = zero_time;
  manifest_mode = "";
  manifest_path = "";
  files_total = 0;
  files_loaded = 0;
  files_broken = 0;
  files_ignored = 0;
  hosts_total = 0;
  workloads_total = 0;
  ready = false;
  ready_reason = "";
}

-- NewStore
abbrev pub new_store : Store
new_store = record {
  snapshot = record { state = record { hosts = [] }; metadata = empty_metadata };
  hosts_by_id = [];
  ready = false;
}

unfoldable pub index_loop : Map DesiredHost → List DesiredHost → Map DesiredHost
index_loop m [] = m
index_loop m (host ∷ hosts) = index_loop (insert host.host_id (clone_host host) m) hosts

unfoldable pub replace : Snapshot → Store → Store
replace snapshot s =
    let cloned = clone_snapshot snapshot in
    record s { snapshot = cloned; hosts_by_id = index_loop [] cloned.state.hosts }

unfoldable pub get_snapshot : Store → Snapshot
get_snapshot s = clone_snapshot s.snapshot

abbrev pub clone_found : Option DesiredHost → Option DesiredHost
clone_found none = none
clone_found (some host) = some (clone_host host)

unfoldable pub get_host : Store → String → Option DesiredHost
get_host s id = clone_found (lookup id s.hosts_by_id)

unfoldable pub set_ready : Bool → Store → Store
set_ready ready s = record s { ready = ready }

unfoldable pub is_ready : Store → Bool
is_ready s = s.ready
