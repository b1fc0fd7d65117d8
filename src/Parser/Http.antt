-- ===== src/Parser/Http.antt =====
-- ParserSvc/internal/transport/http/dto.go, with the documents that encoding/json writes of it.
pub mod Handlers
use infrastructure_managemen.Common.{ℕ, String, Bool, Option, List, [], ◌∷◌, ◌==◌, map}
use infrastructure_managemen.Common.Int.{ℤ}
use infrastructure_managemen.Common.Maps.{Map, copy}
use infrastructure_managemen.Common.Clock.{Time}
use infrastructure_managemen.Common.Json.{
  Json, bool, number, text, array, object, Members, no_members, member, Rfc3339, unless, elements,
  members, nullable, is_nil, count,
}
use infrastructure_managemen.Parser.Domain.{Snapshot, DesiredHost, DesiredWorkload}

pub record ReadinessResponse : Type 0 where
  pub status : String
  pub ready_reason : String
  pub loaded_files : ℕ
  pub broken_files : ℕ
  pub hosts_total : ℕ

pub record DesiredWorkloadDto : Type 0 where
  pub name : String
  pub enabled : Bool
  pub deployment_mode : String
  pub image : String
  pub version : Option String
  pub port : Option ℤ

pub record DesiredHostDto : Type 0 where
  pub host_id : String
  pub fqdn : String
  pub ip : String
  pub labels : Map String
  pub env : String
  pub managed_by : String
  pub purpose : String
  pub workloads : List DesiredWorkloadDto

pub record DesiredStateMetadata : Type 0 where
  pub loaded_at : Time
  pub manifest_mode : String
  pub manifest_path : String
  pub files_total : ℕ
  pub files_loaded : ℕ
  pub files_broken : ℕ
  pub files_ignored : ℕ
  pub hosts_total : ℕ
  pub workloads_total : ℕ
  pub ready : Bool
  pub ready_reason : String

pub record DesiredStateResponse : Type 0 where
  pub metadata : DesiredStateMetadata
  pub hosts : List DesiredHostDto

pub record HostsResponseMetadata : Type 0 where
  pub loaded_at : Time
  pub total_hosts : ℕ
  pub returned_hosts : ℕ
  pub workloads_total : ℕ
  pub files_loaded : ℕ
  pub files_broken : ℕ

pub record HostResponseMetadata : Type 0 where
  pub loaded_at : Time
  pub files_loaded : ℕ
  pub files_broken : ℕ

unfoldable pub to_desired_workload_dto : DesiredWorkload → DesiredWorkloadDto
to_desired_workload_dto w = record {
  name = w.name;
  enabled = w.enabled;
  deployment_mode = w.deployment_mode;
  image = w.image;
  version = w.version;
  port = w.port;
}

unfoldable pub to_desired_host_dto : DesiredHost → DesiredHostDto
to_desired_host_dto host = record {
  host_id = host.host_id;
  fqdn = host.fqdn;
  ip = host.ip;
  labels = copy host.labels;
  env = host.env;
  managed_by = host.managed_by;
  purpose = host.purpose;
  workloads = map to_desired_workload_dto host.workloads;
}

unfoldable pub to_desired_state_response : Snapshot → DesiredStateResponse
to_desired_state_response snapshot = record {
  metadata = record {
    loaded_at = snapshot.metadata.loaded_at;
    manifest_mode = snapshot.metadata.manifest_mode;
    manifest_path = snapshot.metadata.manifest_path;
    files_total = snapshot.metadata.files_total;
    files_loaded = snapshot.metadata.files_loaded;
    files_broken = snapshot.metadata.files_broken;
    files_ignored = snapshot.metadata.files_ignored;
    hosts_total = snapshot.metadata.hosts_total;
    workloads_total = snapshot.metadata.workloads_total;
    ready = snapshot.metadata.ready;
    ready_reason = snapshot.metadata.ready_reason;
  };
  hosts = map to_desired_host_dto snapshot.state.hosts;
}

-- The documents, by the tags of the fields.
unfoldable pub encode_api_error : String → Json
encode_api_error message = object (member "message" (text message) no_members)

unfoldable pub encode_health : String → Json
encode_health status = object (member "status" (text status) no_members)

unfoldable pub encode_readiness : ReadinessResponse → Json
encode_readiness r = object (
    member "status" (text r.status) (
      unless (r.ready_reason == "") "readyReason" (text r.ready_reason) (
        member "loadedFiles" (count r.loaded_files) (
          member "brokenFiles" (count r.broken_files)
            (member "hostsTotal" (count r.hosts_total) no_members)))))

unfoldable pub encode_workload : DesiredWorkloadDto → Json
encode_workload w = object (
    member "name" (text w.name) (
      member "enabled" (bool w.enabled) (
        member "deployment_mode" (text w.deployment_mode) (
          unless (w.image == "") "image" (text w.image) (
            unless (is_nil w.version) "version" (nullable text w.version)
              (unless (is_nil w.port) "port" (nullable number w.port) no_members))))))

unfoldable pub encode_host : DesiredHostDto → Json
encode_host h = object (
    member "host_id" (text h.host_id) (
      member "fqdn" (text h.fqdn) (
        unless (h.ip == "") "ip" (text h.ip) (
          member "labels" (object (members text h.labels)) (
            member "env" (text h.env) (
              member "managed_by" (text h.managed_by) (
                member "purpose" (text h.purpose) (
                  member "workloads" (array (elements encode_workload h.workloads))
                    no_members))))))))

module _ (times : Rfc3339) where
  unfoldable pub encode_metadata : DesiredStateMetadata → Json
  encode_metadata m = object (
      member "loadedAt" (text (times.print m.loaded_at)) (
        member "manifestMode" (text m.manifest_mode) (
          member "manifestPath" (text m.manifest_path) (
            member "filesTotal" (count m.files_total) (
              member "filesLoaded" (count m.files_loaded) (
                member "filesBroken" (count m.files_broken) (
                  member "filesIgnored" (count m.files_ignored) (
                    member "hostsTotal" (count m.hosts_total) (
                      member "workloadsTotal" (count m.workloads_total) (
                        member "ready" (bool m.ready) (
                          unless (m.ready_reason == "") "readyReason" (text m.ready_reason)
                            no_members)))))))))))

  unfoldable pub encode_desired_state : DesiredStateResponse → Json
  encode_desired_state r = object (
      member "metadata" (encode_metadata r.metadata) (
        member "desiredState"
          (object (member "hosts" (array (elements encode_host r.hosts)) no_members)) no_members))

  unfoldable pub encode_hosts : HostsResponseMetadata → List DesiredHostDto → Json
  encode_hosts m hosts = object (
      member "metadata"
        (object (
          member "loadedAt" (text (times.print m.loaded_at)) (
            member "totalHosts" (count m.total_hosts) (
              member "returnedHosts" (count m.returned_hosts) (
                member "workloadsTotal" (count m.workloads_total) (
                  member "filesLoaded" (count m.files_loaded)
                    (member "filesBroken" (count m.files_broken) no_members)))))))
        (member "hosts" (array (elements encode_host hosts)) no_members))

  unfoldable pub encode_found : HostResponseMetadata → DesiredHostDto → Json
  encode_found m host = object (
      member "metadata"
        (object (
          member "loadedAt" (text (times.print m.loaded_at)) (
            member "filesLoaded" (count m.files_loaded)
              (member "filesBroken" (count m.files_broken) no_members))))
        (member "host" (encode_host host) no_members))
