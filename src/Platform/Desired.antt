-- ===== src/Platform/Desired.antt =====
-- The desired state, from ParserSvc's store to the detector's client.
pub mod Codec
use infrastructure_managemen.Common.Logger.{Build}
use infrastructure_managemen.Common.{
  String, ◌≡◌, refl, ap, ap₂, All, false, Option, some, List, [], ◌∷◌, map, Result, ok,
}
use infrastructure_managemen.Common.Int.{pos, leb_ℤ}
use infrastructure_managemen.Common.Maps.{copy_with, copy_with-same, copy-eq}
use infrastructure_managemen.Common.Clock.{Time}
use infrastructure_managemen.Common.Json.{
  Rfc3339, text, number, as_text, as_bool, as_int, as_time, as_pointer, as_list, as_map, as_struct,
  field,
}
use infrastructure_managemen.Common.Json.Laws.{
  decode_elements-elements, decode_members-members, field-unless, as_text-omitempty,
  as_pointer-omitempty, as_text-text, pointer_to_text, pointer_to_int,
}
use infrastructure_managemen.Drift.Clients.Parser.{
  DesiredWorkloadDto, DesiredHostDto, DesiredMetadataDto, decode_workload, decode_host,
  decode_metadata, decode_state, decode_response, to_workload, to_host, to_domain,
  read_desired_state, fetch_desired_state, fetch_once,
}
use infrastructure_managemen.Parser.Domain.{Snapshot}
use infrastructure_managemen.Parser.Domain.Clones.{HasMap, clone_snapshot-eq}
use infrastructure_managemen.Parser.Http.Handlers.{get_desired_state}
use infrastructure_managemen.Parser
use infrastructure_managemen.Parser.App.{start_service}
use infrastructure_managemen.Parser.App.Laws.{start_service-IsServed}
use infrastructure_managemen.Parser.Config.{Config, ConfigError}
use infrastructure_managemen.Parser.Loader.{Files}
use infrastructure_managemen.Parser.Manifest.{StructurizrManifest}
use infrastructure_managemen.Parser.Values.{Floats}
use infrastructure_managemen.Common.Resolve.{Paths}
use infrastructure_managemen.Drift.Domain.{DesiredWorkload, DesiredHost, DesiredState}
use infrastructure_managemen.Drift.Clients.Retry.Laws.{
  with_retries-first_value, read_reply-response,
}
use infrastructure_managemen.Drift.Config.{ParserClientConfig}
use Prim.Native.String.{◌++◌}
use infrastructure_managemen.Drift.Clients.Retry.{read_reply, Documents, Http, response}
use infrastructure_managemen.Platform.Desired.Codec.{
  read_workload, read_host, read_metadata, decode_response-encode_desired_state,
}

-- What the detector keeps of a workload, a host and a snapshot.
abbrev pub project_workload : Parser.Domain.DesiredWorkload → DesiredWorkload
project_workload w = record {
  name = w.name;
  enabled = w.enabled;
  deployment_mode = w.deployment_mode;
  image = w.image;
  version = w.version;
  port = w.port;
}

abbrev pub project_host : Parser.Domain.DesiredHost → DesiredHost
project_host h = record {
  host_id = h.host_id;
  fqdn = h.fqdn;
  labels = h.labels;
  workloads = map project_workload h.workloads;
}

abbrev pub project : Time → Snapshot → DesiredState
project loaded_at s = record {
  hosts = map project_host s.state.hosts;
  metadata = record {
    ready = s.metadata.ready;
    ready_reason = s.metadata.ready_reason;
    files_loaded = pos s.metadata.files_loaded;
    files_broken = pos s.metadata.files_broken;
    hosts_total = pos s.metadata.hosts_total;
    workloads_total = pos s.metadata.workloads_total;
    loaded_at = some loaded_at;
  };
}

workloads_lem :
    (ws : List Parser.Domain.DesiredWorkload)
    → map to_workload (map read_workload (map Parser.Http.to_desired_workload_dto ws))
      ≡ map project_workload ws
unfolding to_workload Parser.Http.to_desired_workload_dto
workloads_lem [] = refl
workloads_lem (w ∷ ws) = ap (◌∷◌ (project_workload w)) (workloads_lem ws)

host_lem :
    (h : Parser.Domain.DesiredHost)
    → HasMap h
    → to_host (read_host (Parser.Http.to_desired_host_dto h)) ≡ project_host h
unfolding to_host Parser.Http.to_desired_host_dto
host_lem h m = cc (
  copy-eq h.labels m,
  copy_with-same (λ (s : String). s) (λ s. refl) h.labels,
  workloads_lem h.workloads,
)

hosts_lem :
    (hs : List Parser.Domain.DesiredHost)
    → All HasMap hs
    → map to_host (map read_host (map Parser.Http.to_desired_host_dto hs)) ≡ map project_host hs
hosts_lem [] m = refl
hosts_lem (h ∷ hs) m = ap₂ ◌∷◌ (host_lem h m.0) (hosts_lem hs m.1)

module _ (times : Rfc3339) (documents : Documents) (store : Parser.Store.Store) (t : Time)
    (maps : All HasMap store.snapshot.state.hosts)
    (parsed : times.parse (times.print store.snapshot.metadata.loaded_at) ≡ ok t) where
  read_desired_state-get_desired_state :
      (body : String)
      → documents.unmarshal body ≡ ok (get_desired_state times store).body
      → read_desired_state times documents body ≡ ok (project t store.snapshot)
  unfolding read_desired_state get_desired_state Parser.Store.get_snapshot
      Parser.Http.to_desired_state_response to_domain
  read_desired_state-get_desired_state body document =
      simp
        (
          document,
          clone_snapshot-eq store.snapshot maps,
          decode_response-encode_desired_state times
              (Parser.Http.to_desired_state_response store.snapshot) t parsed,
          hosts_lem store.snapshot.state.hosts maps,
        )
        refl

-- One call to a store whose hosts have maps.
fetch_desired_state-get_desired_state :
    {W : Type 0} (times : Rfc3339) (documents : Documents) (http : Http W)
    (cfg : ParserClientConfig) (store : Parser.Store.Store) (t : Time) (body : String) (w w' : W)
    → leb_ℤ cfg.retry.max_attempts (pos 0) ≡ false
    → All HasMap store.snapshot.state.hosts
    → times.parse (times.print store.snapshot.metadata.loaded_at) ≡ ok t
    → documents.unmarshal body ≡ ok (get_desired_state times store).body
    → http.get (cfg.base_url ++ cfg.desired_state_path) w
      ≡ (response (get_desired_state times store).status body, w')
    → fetch_desired_state times documents http cfg w ≡ (ok (project t store.snapshot), w')
unfolding fetch_desired_state fetch_once get_desired_state
fetch_desired_state-get_desired_state times documents http cfg store t body w w' h maps parsed
      document answered =
    with_retries-first_value _ cfg.retry w w'
      (read_reply 200 (read_desired_state times documents) (response 200 body))
      (project t store.snapshot) h (rw answered refl)
      (read_reply-response 200 (read_desired_state times documents) body (project t store.snapshot)
        (read_desired_state-get_desired_state times documents store t maps parsed body document))

-- Where ParserSvc has started, the detector's request for the desired state gets, after one call, what the
-- store's snapshot holds: every host in order with its identifier, name, labels and workloads, and the
-- counts, the readiness and the instant of the load. The instant can be read as it was printed, the document
-- can be read as it was written, the server answers with the handler's answer, and the client may call once.
pub fetch_desired_state-start_service :
    {W : Type 0} (times : Rfc3339) (documents : Documents) (http : Http W)
    (cfg : ParserClientConfig) (floats : Floats) {Bytes : Type 0} (files : Files Bytes)
    (paths : Paths) (unmarshal : Bytes → Result String (StructurizrManifest floats.Float))
    (read : String → Result ConfigError Config) (build : Build) (now : Time) (config_path : String)
    (store : Parser.Store.Store) (t : Time) (body : String) (w w' : W)
    → start_service floats files paths unmarshal read build now config_path ≡ ok store
    → leb_ℤ cfg.retry.max_attempts (pos 0) ≡ false
    → times.parse (times.print store.snapshot.metadata.loaded_at) ≡ ok t
    → documents.unmarshal body ≡ ok (get_desired_state times store).body
    → http.get (cfg.base_url ++ cfg.desired_state_path) w
      ≡ (response (get_desired_state times store).status body, w')
    → fetch_desired_state times documents http cfg w ≡ (ok (project t store.snapshot), w')
fetch_desired_state-start_service times documents http cfg floats files paths unmarshal read build
      now config_path store t body w w' started h parsed document answered =
    let served =
      start_service-IsServed floats files paths unmarshal read build now config_path store
        started in
    fetch_desired_state-get_desired_state times documents http cfg store t body w w' h served.maps
      parsed document answered
