-- ===== src/Inventory/Domain.antt =====
-- InventorySvc/internal/domain/model.go
pub mod Clones
use infrastructure_managemen.Common.{ℕ, String, Bool, Option, none, some, List, [], ◌∷◌}
use infrastructure_managemen.Common.Int.{ℤ}
use infrastructure_managemen.Common.Maps.{Map, copy, copy_with}
use infrastructure_managemen.Common.Clock.{Time}

pub data HostStatus : Type 0 where
  ok partial error bootstrap_only : HostStatus

pub data SourceStatusType : Type 0 where
  ok error disabled : SourceStatusType

-- `labels` is `none` where Go's map is nil.
pub record HostSeed : Type 0 where
  pub id : String
  pub fqdn : String
  pub labels : Option (Map String)

pub record Workload : Type 0 where
  pub id : String
  pub name : String
  pub image : String
  pub runtime : String
  pub source : String
  pub last_seen_at : Option Time

pub record SourceData : Type 0 where
  pub workloads : List Workload
  pub observed_at : Time

pub record SourceStatus : Type 0 where
  pub source : String
  pub enabled : Bool
  pub status : SourceStatusType
  pub observed_at : Option Time
  pub error : String

pub record Host : Type 0 where
  pub id : String
  pub fqdn : String
  pub labels : Map String
  pub workloads : List Workload
  pub last_observed_at : Option Time
  pub status : HostStatus
  pub source_status : Map SourceStatus
  pub errors : List String

pub record InventoryMetadata : Type 0 where
  pub is_partial : Bool
  pub total_hosts : ℕ
  pub failed_hosts : ℕ
  pub last_sync_at : Option Time
  pub last_successful_sync_at : Option Time
  pub last_full_sync_at : Option Time
  pub last_partial_sync_at : Option Time
  pub sync_duration_ms : ℤ

pub record InventorySnapshot : Type 0 where
  pub hosts : List Host
  pub metadata : InventoryMetadata

unfoldable pub clone_time_ptr : Option Time → Option Time
clone_time_ptr none = none
clone_time_ptr (some value) = some value

unfoldable pub clone_errors : List String → List String
clone_errors [] = []
clone_errors (e ∷ es) = e ∷ clone_errors es

unfoldable pub clone_workloads : List Workload → List Workload
clone_workloads [] = []
clone_workloads (w ∷ ws) =
    record w { last_seen_at = clone_time_ptr w.last_seen_at } ∷ clone_workloads ws

unfoldable pub clone_status : SourceStatus → SourceStatus
clone_status s = record s { observed_at = clone_time_ptr s.observed_at }

-- (Host).Clone
unfoldable pub clone_host : Host → Host
clone_host h = record {
  id = h.id;
  fqdn = h.fqdn;
  labels = copy h.labels;
  workloads = clone_workloads h.workloads;
  last_observed_at = clone_time_ptr h.last_observed_at;
  status = h.status;
  source_status = copy_with clone_status h.source_status;
  errors = clone_errors h.errors;
}

unfoldable pub clone_hosts : List Host → List Host
clone_hosts [] = []
clone_hosts (h ∷ hs) = clone_host h ∷ clone_hosts hs

-- (InventorySnapshot).Clone
unfoldable pub clone_snapshot : InventorySnapshot → InventorySnapshot
clone_snapshot s = record {
  hosts = clone_hosts s.hosts;
  metadata = record (s.metadata) {
    last_sync_at = clone_time_ptr s.metadata.last_sync_at;
    last_successful_sync_at = clone_time_ptr s.metadata.last_successful_sync_at;
    last_full_sync_at = clone_time_ptr s.metadata.last_full_sync_at;
    last_partial_sync_at = clone_time_ptr s.metadata.last_partial_sync_at;
  };
}
