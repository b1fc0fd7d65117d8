-- ===== src/Drift/Clients/Parser.antt =====
-- DriftDetectorSvc/internal/clients/parser/client.go
use infrastructure_managemen.Common.{String, Bool, Option, List, Result, ok, ◌>>=◌, map}
use Prim.Native.String.{◌++◌}
use infrastructure_managemen.Common.Int.{ℤ}
use infrastructure_managemen.Common.Maps.{Map, copy}
use infrastructure_managemen.Common.Clock.{Time}
use infrastructure_managemen.Common.Json.{
  Json, Members, Mismatch, Rfc3339, field, as_text, as_bool, as_int, as_time, as_pointer, as_list,
  as_map, as_struct,
}
use infrastructure_managemen.Drift.Config.{ParserClientConfig}
use infrastructure_managemen.Drift.Domain.{DesiredState, DesiredHost, DesiredWorkload}
use infrastructure_managemen.Drift.Clients.Retry.{
  Http, Documents, Reply, ClientError, read_reply, with_retries,
}

pub record DesiredMetadataDto : Type 0 where
  pub ready : Bool
  pub ready_reason : String
  pub files_loaded : ℤ
  pub files_broken : ℤ
  pub hosts_total : ℤ
  pub workloads_total : ℤ
  pub loaded_at : Option Time

pub record DesiredWorkloadDto : Type 0 where
  pub name : String
  pub enabled : Bool
  pub deployment_mode : String
  pub image : String
  pub version : Option String
  pub port : Option ℤ

pub record DesiredHostDto : Type 0 where
  pub host_id : String
  pub fqdn : String
  pub labels : Map String
  pub workloads : List DesiredWorkloadDto

pub record DesiredStateDto : Type 0 where
  pub hosts : List DesiredHostDto

pub record DesiredStateResponse : Type 0 where
  pub metadata : DesiredMetadataDto
  pub state : DesiredStateDto

-- The decoding of each record by the tags of its fields.
module _ (times : Rfc3339) where
  unfoldable pub decode_workload : Members → Result Mismatch DesiredWorkloadDto
  decode_workload o = do
    name ← as_text (field "name" o)
    enabled ← as_bool (field "enabled" o)
    deployment_mode ← as_text (field "deployment_mode" o)
    image ← as_text (field "image" o)
    version ← as_pointer as_text (field "version" o)
    port ← as_pointer as_int (field "port" o)
    ok (record {
      name = name;
      enabled = enabled;
      deployment_mode = deployment_mode;
      image = image;
      version = version;
      port = port;
    })

  unfoldable pub decode_host : Members → Result Mismatch DesiredHostDto
  decode_host o = do
    host_id ← as_text (field "host_id" o)
    fqdn ← as_text (field "fqdn" o)
    labels ← as_map as_text (field "labels" o)
    workloads ← as_list (as_struct decode_workload) (field "workloads" o)
    ok (record { host_id = host_id; fqdn = fqdn; labels = labels; workloads = workloads })

  unfoldable pub decode_metadata : Members → Result Mismatch DesiredMetadataDto
  decode_metadata o = do
    ready ← as_bool (field "ready" o)
    ready_reason ← as_text (field "readyReason" o)
    files_loaded ← as_int (field "filesLoaded" o)
    files_broken ← as_int (field "filesBroken" o)
    hosts_total ← as_int (field "hostsTotal" o)
    workloads_total ← as_int (field "workloadsTotal" o)
    loaded_at ← as_pointer (as_time times) (field "loadedAt" o)
    ok (record {
      ready = ready;
      ready_reason = ready_reason;
      files_loaded = files_loaded;
      files_broken = files_broken;
      hosts_total = hosts_total;
      workloads_total = workloads_total;
      loaded_at = loaded_at;
    })

  unfoldable pub decode_state : Members → Result Mismatch DesiredStateDto
  decode_state o = do
    hosts ← as_list (as_struct decode_host) (field "hosts" o)
    ok (record { hosts = hosts })

  unfoldable pub decode_response : Json → Result Mismatch DesiredStateResponse
  decode_response = as_struct (λ o. do
    metadata ← as_struct decode_metadata (field "metadata" o)
    state ← as_struct decode_state (field "desiredState" o)
    ok (record { metadata = metadata; state = state }))

unfoldable pub to_workload : DesiredWorkloadDto → DesiredWorkload
to_workload w = record {
  name = w.name;
  enabled = w.enabled;
  deployment_mode = w.deployment_mode;
  image = w.image;
  version = w.version;
  port = w.port;
}

unfoldable pub to_host : DesiredHostDto → DesiredHost
to_host h = record {
  host_id = h.host_id;
  fqdn = h.fqdn;
  labels = copy h.labels;
  workloads = map to_workload h.workloads;
}

-- (desiredStateResponse).toDomain
unfoldable pub to_domain : DesiredStateResponse → DesiredState
to_domain r = record {
  hosts = map to_host r.state.hosts;
  metadata = record {
    ready = r.metadata.ready;
    ready_reason = r.metadata.ready_reason;
    files_loaded = r.metadata.files_loaded;
    files_broken = r.metadata.files_broken;
    hosts_total = r.metadata.hosts_total;
    workloads_total = r.metadata.workloads_total;
    loaded_at = r.metadata.loaded_at;
  };
}

-- The body of a response, decoded and converted.
unfoldable pub read_desired_state : Rfc3339 → Documents → String → Result Mismatch DesiredState
read_desired_state times documents body = do
  document ← documents.unmarshal body
  response ← decode_response times document
  ok (to_domain response)

module _ {W : Type 0} (times : Rfc3339) (documents : Documents) (http : Http W) where
  unfoldable pub fetch_once : String → W → Reply DesiredState × W
  fetch_once request_url w =
      let (reply, w') = http.get request_url w in
      (read_reply 200 (read_desired_state times documents) reply, w')

  unfoldable pub fetch_desired_state : ParserClientConfig → W → Result ClientError DesiredState × W
  fetch_desired_state cfg =
      with_retries
        (record { call = fetch_once (cfg.base_url ++ cfg.desired_state_path); wait = http.wait })
        cfg.retry
