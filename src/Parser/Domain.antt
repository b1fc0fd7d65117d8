-- ===== src/Parser/Domain.antt =====
-- ParserSvc/internal/domain/model.go
pub mod Clones
use infrastructure_managemen.Common.{ℕ, String, Bool, Option, none, some, List, [], ◌∷◌}
use infrastructure_managemen.Common.Int.{ℤ}
use infrastructure_managemen.Common.Maps.{Map, copy}
use infrastructure_managemen.Common.Clock.{Time}

pub record DesiredWorkload : Type 0 where
  pub name : String
  pub enabled : Bool
  pub deployment_mode : String
  pub image : String
  pub version : Option String
  pub port : Option ℤ

pub record DesiredHost : Type 0 where
  pub host_id : String
  pub fqdn : String
  pub ip : String
  pub labels : Map String
  pub env : String
  pub managed_by : String
  pub purpose : String
  pub workloads : List DesiredWorkload

pub record DesiredState : Type 0 where
  pub hosts : List DesiredHost

pub record SnapshotMetadata : Type 0 where
  pub loaded_at : Time
  pub manifest_mode : String
  pub manifest_path : String
  pub files_total : ℕ
  pub files_loaded : ℕ
  pub files_broken : ℕ
  pub files_ignored : ℕ
  pub hosts_total : ℕ
  pub workloads_total : ℕ
  pub ready : Bool
  pub ready_reason : String

pub record Snapshot : Type 0 where
  pub state : DesiredState
  pub metadata : SnapshotMetadata

abbrev clone_pointer : {A : Type 0} → Option A → Option A
clone_pointer none = none
clone_pointer (some value) = some value

-- (DesiredWorkload).Clone
unfoldable pub clone_workload : DesiredWorkload → DesiredWorkload
clone_workload w = record {
  name = w.name;
  enabled = w.enabled;
  deployment_mode = w.deployment_mode;
  image = w.image;
  version = clone_pointer w.version;
  port = clone_pointer w.port;
}

unfoldable pub clone_workloads : List DesiredWorkload → List DesiredWorkload
clone_workloads [] = []
clone_workloads (w ∷ ws) = clone_workload w ∷ clone_workloads ws

-- (DesiredHost).Clone
unfoldable pub clone_host : DesiredHost → DesiredHost
clone_host h = record {
  host_id = h.host_id;
  fqdn = h.fqdn;
  ip = h.ip;
  labels = copy h.labels;
  env = h.env;
  managed_by = h.managed_by;
  purpose = h.purpose;
  workloads = clone_workloads h.workloads;
}

unfoldable pub clone_hosts : List DesiredHost → List DesiredHost
clone_hosts [] = []
clone_hosts (h ∷ hs) = clone_host h ∷ clone_hosts hs

-- (DesiredState).Clone
unfoldable pub clone_state : DesiredState → DesiredState
clone_state s = record { hosts = clone_hosts s.hosts }

-- (Snapshot).Clone
unfoldable pub clone_snapshot : Snapshot → Snapshot
clone_snapshot s = record { state = clone_state s.state; metadata = s.metadata }
