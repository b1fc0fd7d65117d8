-- ===== src/Drift/Clients/Inventory.antt =====
-- DriftDetectorSvc/internal/clients/inventory/client.go
use infrastructure_managemen.Common.{String, Bool, Option, List, Result, ok, ◌>>=◌, map}
use Prim.Native.String.{◌++◌}
use infrastructure_managemen.Common.Int.{ℤ}
use infrastructure_managemen.Common.Maps.{Map, copy, copy_with}
use infrastructure_managemen.Common.Clock.{Time}
use infrastructure_managemen.Common.Json.{
  Json, Members, Mismatch, Rfc3339, field, as_text, as_bool, as_int, as_time, as_pointer, as_list,
  as_map, as_struct,
}
use infrastructure_managemen.Drift.Config.{InventoryClientConfig}
use infrastructure_managemen.Drift.Domain.{
  ActualState, ActualHost, ActualWorkload, ActualSourceStatus,
}
use infrastructure_managemen.Drift.Clients.Retry.{
  Http, Documents, Reply, ClientError, read_reply, with_retries,
}

pub record HostsMetadataDto : Type 0 where
  pub is_partial : Bool
  pub total_hosts : ℤ
  pub failed_hosts : ℤ
  pub last_sync_at : Option Time

pub record WorkloadDto : Type 0 where
  pub name : String

pub record SourceStatusDto : Type 0 where
  pub source : String
  pub enabled : Bool
  pub status : String
  pub error : String

pub record HostDto : Type 0 where
  pub id : String
  pub fqdn : String
  pub labels : Map String
  pub status : String
  pub workloads : List WorkloadDto
  pub source_status : Map SourceStatusDto

pub record HostsResponse : Type 0 where
  pub metadata : HostsMetadataDto
  pub hosts : List HostDto

-- The decoding of each record by the tags of its fields.
unfoldable pub decode_workload : Members → Result Mismatch WorkloadDto
decode_workload o = do name ← as_text (field "name" o); ok (record { name = name })

unfoldable pub decode_source_status : Members → Result Mismatch SourceStatusDto
decode_source_status o = do
  source ← as_text (field "source" o)
  enabled ← as_bool (field "enabled" o)
  status ← as_text (field "status" o)
  error ← as_text (field "error" o)
  ok (record { source = source; enabled = enabled; status = status; error = error })

unfoldable pub decode_host : Members → Result Mismatch HostDto
decode_host o = do
  id ← as_text (field "id" o)
  fqdn ← as_text (field "fqdn" o)
  labels ← as_map as_text (field "labels" o)
  status ← as_text (field "status" o)
  workloads ← as_list (as_struct decode_workload) (field "workloads" o)
  source_status ← as_map (as_struct decode_source_status) (field "sourceStatus" o)
  ok (record {
    id = id;
    fqdn = fqdn;
    labels = labels;
    status = status;
    workloads = workloads;
    source_status = source_status;
  })

module _ (times : Rfc3339) where
  unfoldable pub decode_metadata : Members → Result Mismatch HostsMetadataDto
  decode_metadata o = do
    is_partial ← as_bool (field "isPartial" o)
    total_hosts ← as_int (field "totalHosts" o)
    failed_hosts ← as_int (field "failedHosts" o)
    last_sync_at ← as_pointer (as_time times) (field "lastSyncAt" o)
    ok (record {
      is_partial = is_partial;
      total_hosts = total_hosts;
      failed_hosts = failed_hosts;
      last_sync_at = last_sync_at;
    })

  unfoldable pub decode_response : Json → Result Mismatch HostsResponse
  decode_response = as_struct (λ o. do
    metadata ← as_struct decode_metadata (field "metadata" o)
    hosts ← as_list (as_struct decode_host) (field "hosts" o)
    ok (record { metadata = metadata; hosts = hosts }))

unfoldable pub to_workload : WorkloadDto → ActualWorkload
to_workload w = record { name = w.name }

unfoldable pub to_source_status : SourceStatusDto → ActualSourceStatus
to_source_status s = record {
  source = s.source;
  enabled = s.enabled;
  status = s.status;
  error = s.error;
}

unfoldable pub to_host : HostDto → ActualHost
to_host h = record {
  host_id = h.id;
  fqdn = h.fqdn;
  labels = copy h.labels;
  status = h.status;
  workloads = map to_workload h.workloads;
  source_status = copy_with to_source_status h.source_status;
}

-- (hostsResponse).toDomain
unfoldable pub to_domain : HostsResponse → ActualState
to_domain r = record {
  hosts = map to_host r.hosts;
  metadata = record {
    is_partial = r.metadata.is_partial;
    total_hosts = r.metadata.total_hosts;
    failed_hosts = r.metadata.failed_hosts;
    last_sync_at = r.metadata.last_sync_at;
  };
}

-- The body of a response, decoded and converted.
unfoldable pub read_actual_state : Rfc3339 → Documents → String → Result Mismatch ActualState
read_actual_state times documents body = do
  document ← documents.unmarshal body
  response ← decode_response times document
  ok (to_domain response)

module _ {W : Type 0} (times : Rfc3339) (documents : Documents) (http : Http W) where
  unfoldable pub fetch_once : String → W → Reply ActualState × W
  fetch_once request_url w =
      let (reply, w') = http.get request_url w in
      (read_reply 200 (read_actual_state times documents) reply, w')

  unfoldable pub fetch_actual_state : InventoryClientConfig → W → Result ClientError ActualState × W
  fetch_actual_state cfg =
      with_retries (record { call = fetch_once (cfg.base_url ++ cfg.hosts_path); wait = http.wait })
        cfg.retry
