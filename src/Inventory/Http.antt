-- ===== src/Inventory/Http.antt =====
-- InventorySvc/internal/transport/http/dto.go, with the documents that encoding/json writes of it.
pub mod Handlers
use infrastructure_managemen.Common.{
  ℕ, String, Bool, true, false, Option, none, some, List, [], ◌∷◌, ◌==◌, map,
}
use infrastructure_managemen.Common.Int.{ℤ}
use infrastructure_managemen.Common.Maps.{Map, copy, copy_with}
use infrastructure_managemen.Common.Clock.{Time, utc}
use infrastructure_managemen.Common.Json.{
  Json, bool, number, text, array, object, Members, no_members, member, Rfc3339, unless, elements,
  members, nullable, is_nil, has_none, count,
}
use infrastructure_managemen.Inventory.Domain
use infrastructure_managemen.Inventory.Domain.{
  HostStatus, SourceStatusType, Host, Workload, SourceStatus, InventoryMetadata, clone_errors,
}

pub record ReadinessResponse : Type 0 where
  pub status : String
  pub is_partial : Bool
  pub last_sync_at : Option Time

pub record HostsResponseMetadata : Type 0 where
  pub is_partial : Bool
  pub total_hosts : ℕ
  pub returned_hosts : ℕ
  pub failed_hosts : ℕ
  pub last_sync_at : Option Time
  pub last_successful_sync_at : Option Time
  pub last_full_sync_at : Option Time
  pub last_partial_sync_at : Option Time
  pub sync_duration_ms : ℤ

pub record HostResponseMetadata : Type 0 where
  pub is_partial : Bool
  pub last_sync_at : Option Time

pub record WorkloadDto : Type 0 where
  pub id : String
  pub name : String
  pub image : String
  pub runtime : String
  pub source : String
  pub last_seen_at : Option Time

pub record SourceStatusDto : Type 0 where
  pub source : String
  pub enabled : Bool
  pub status : SourceStatusType
  pub observed_at : Option Time
  pub error : String

pub record HostDto : Type 0 where
  pub id : String
  pub fqdn : String
  pub labels : Map String
  pub workloads : List WorkloadDto
  pub last_observed_at : Option Time
  pub status : HostStatus
  pub source_status : Map SourceStatusDto
  pub errors : List String

-- A new pointer to the instant in UTC, where there is one.
unfoldable pub utc_pointer : Option Time → Option Time
utc_pointer none = none
utc_pointer (some t) = some (utc t)

unfoldable pub to_source_status_dto : SourceStatus → SourceStatusDto
to_source_status_dto s = record {
  source = s.source;
  enabled = s.enabled;
  status = s.status;
  observed_at = utc_pointer s.observed_at;
  error = s.error;
}

unfoldable pub to_workload_dto : Workload → WorkloadDto
to_workload_dto w = record {
  id = w.id;
  name = w.name;
  image = w.image;
  runtime = w.runtime;
  source = w.source;
  last_seen_at = utc_pointer w.last_seen_at;
}

unfoldable pub to_host_dto : Host → HostDto
to_host_dto host = record {
  id = host.id;
  fqdn = host.fqdn;
  labels = copy host.labels;
  workloads = map to_workload_dto host.workloads;
  last_observed_at = utc_pointer host.last_observed_at;
  status = host.status;
  source_status = copy_with to_source_status_dto host.source_status;
  errors = clone_errors host.errors;
}

unfoldable pub to_hosts_response_metadata : InventoryMetadata → ℕ → HostsResponseMetadata
to_hosts_response_metadata m returned_hosts = record {
  is_partial = m.is_partial;
  total_hosts = m.total_hosts;
  returned_hosts = returned_hosts;
  failed_hosts = m.failed_hosts;
  last_sync_at = m.last_sync_at;
  last_successful_sync_at = m.last_successful_sync_at;
  last_full_sync_at = m.last_full_sync_at;
  last_partial_sync_at = m.last_partial_sync_at;
  sync_duration_ms = m.sync_duration_ms;
}

-- The texts of the constants.
unfoldable pub host_status_text : HostStatus → String
host_status_text HostStatus.ok = "ok"
host_status_text HostStatus.partial = "partial"
host_status_text HostStatus.error = "error"
host_status_text HostStatus.bootstrap_only = "bootstrap_only"

unfoldable pub source_status_text : SourceStatusType → String
source_status_text SourceStatusType.ok = "ok"
source_status_text SourceStatusType.error = "error"
source_status_text SourceStatusType.disabled = "disabled"

-- The documents, by the tags of the fields.
unfoldable pub encode_api_error : String → Json
encode_api_error message = object (member "message" (text message) no_members)

unfoldable pub encode_health : String → Json
encode_health status = object (member "status" (text status) no_members)

module _ (times : Rfc3339) where
  abbrev pub instant : Time → Json
  instant t = text (times.print t)

  -- A pointer to an instant, with `omitempty`.
  abbrev pub optional_instant : String → Option Time → Members → Members
  optional_instant tag t rest = unless (is_nil t) tag (nullable instant t) rest

  unfoldable pub encode_readiness : ReadinessResponse → Json
  encode_readiness r = object (
      member "status" (text r.status) (
        member "isPartial" (bool r.is_partial)
          (optional_instant "lastSyncAt" r.last_sync_at no_members)))

  unfoldable pub encode_workload : WorkloadDto → Json
  encode_workload w = object (
      member "id" (text w.id) (
        member "name" (text w.name) (
          unless (w.image == "") "image" (text w.image) (
            unless (w.runtime == "") "runtime" (text w.runtime) (
              member "source" (text w.source)
                (optional_instant "lastSeenAt" w.last_seen_at no_members))))))

  unfoldable pub encode_source_status : SourceStatusDto → Json
  encode_source_status s = object (
      member "source" (text s.source) (
        member "enabled" (bool s.enabled) (
          member "status" (text (source_status_text s.status)) (
            optional_instant "observedAt" s.observed_at
              (unless (s.error == "") "error" (text s.error) no_members)))))

  unfoldable pub encode_host : HostDto → Json
  encode_host h = object (
      member "id" (text h.id) (
        member "fqdn" (text h.fqdn) (
          member "labels" (object (members text h.labels)) (
            member "workloads" (array (elements encode_workload h.workloads)) (
              optional_instant "lastObservedAt" h.last_observed_at (
                member "status" (text (host_status_text h.status)) (
                  member "sourceStatus" (object (members encode_source_status h.source_status)) (
                    unless (has_none h.errors) "errors" (array (elements text h.errors))
                      no_members))))))))

  unfoldable pub encode_metadata : HostsResponseMetadata → Json
  encode_metadata m = object (
      member "isPartial" (bool m.is_partial) (
        member "totalHosts" (count m.total_hosts) (
          member "returnedHosts" (count m.returned_hosts) (
            member "failedHosts" (count m.failed_hosts) (
              optional_instant "lastSyncAt" m.last_sync_at (
                optional_instant "lastSuccessfulSyncAt" m.last_successful_sync_at (
                  optional_instant "lastFullSyncAt" m.last_full_sync_at (
                    optional_instant "lastPartialSyncAt" m.last_partial_sync_at
                      (member "syncDurationMs" (number m.sync_duration_ms) no_members)))))))))

  unfoldable pub encode_hosts : HostsResponseMetadata → List HostDto → Json
  encode_hosts m hosts = object (
      member "metadata" (encode_metadata m)
        (member "hosts" (array (elements encode_host hosts)) no_members))

  unfoldable pub encode_found : HostResponseMetadata → HostDto → Json
  encode_found m host = object (
      member "metadata"
        (object (
          member "isPartial" (bool m.is_partial)
            (optional_instant "lastSyncAt" m.last_sync_at no_members)))
        (member "host" (encode_host host) no_members))
