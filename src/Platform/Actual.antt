-- ===== src/Platform/Actual.antt =====
-- The actual state, from InventorySvc's store to the detector's client.
pub mod Codec
use Prim.Native.String.{◌++◌}
use infrastructure_managemen.Common.{
  ℕ, String, ◌≡◌, refl, ap, ap₂, All, Option, none, some, List, [], ◌∷◌, map, ok, if◌then◌else◌,
  false,
}
use infrastructure_managemen.Common.Int.{pos, leb_ℤ}
use infrastructure_managemen.Common.Maps.{
  copy_with, copy_with-same, copy-eq, values_with, copy_with-thrice,
}
use infrastructure_managemen.Common.Clock.{Time}
use infrastructure_managemen.Common.Json.{
  null, text, Rfc3339, as_text, as_bool, as_int, as_time, as_pointer, as_list, as_map, as_struct,
  field, nullable, is_nil,
}
use infrastructure_managemen.Common.Json.Laws.{
  decode_elements-elements, decode_members-members, field-unless, as_text-omitempty, as_text-text,
}
use infrastructure_managemen.Drift.Config.{InventoryClientConfig}
use infrastructure_managemen.Drift.Domain.{
  ActualWorkload, ActualSourceStatus, ActualHost, ActualState,
}
use infrastructure_managemen.Drift.Clients.Inventory.{
  WorkloadDto, SourceStatusDto, HostDto, HostsMetadataDto, decode_workload, decode_source_status,
  decode_host, decode_metadata, decode_response, to_workload, to_source_status, to_host, to_domain,
  read_actual_state, fetch_once, fetch_actual_state,
}
use infrastructure_managemen.Drift.Clients.Retry.{Documents, Http, response, read_reply}
use infrastructure_managemen.Drift.Clients.Retry.Laws.{
  with_retries-first_value, read_reply-response,
}
use infrastructure_managemen.Inventory
use infrastructure_managemen.Inventory.App.{Started, Setup, start_service, run_scheduler}
use infrastructure_managemen.Inventory.App.Laws.{run_scheduler-IsServing}
use infrastructure_managemen.Inventory.Cadvisor.Source.{Link}
use infrastructure_managemen.Inventory.Sync.{Env}
use infrastructure_managemen.Inventory.Domain.{InventorySnapshot}
use infrastructure_managemen.Inventory.Domain.Clones.{HasMaps, clone_hosts-eq, clone_snapshot-eq}
use infrastructure_managemen.Inventory.Http.{host_status_text, source_status_text, instant}
use infrastructure_managemen.Inventory.Http.Handlers.{answer_hosts, parse_label_filters}
use infrastructure_managemen.Platform.Actual.Codec.{
  read_workload, read_source_status, read_host, read_metadata, decode_response-encode_hosts, Reads,
}

-- What the detector keeps of a workload, a source's status, a host and a snapshot.
abbrev pub project_workload : Inventory.Domain.Workload → ActualWorkload
project_workload w = record { name = w.name }

abbrev pub project_source_status : Inventory.Domain.SourceStatus → ActualSourceStatus
project_source_status s = record {
  source = s.source;
  enabled = s.enabled;
  status = source_status_text s.status;
  error = s.error;
}

abbrev pub project_host : Inventory.Domain.Host → ActualHost
project_host h = record {
  host_id = h.id;
  fqdn = h.fqdn;
  labels = h.labels;
  status = host_status_text h.status;
  workloads = map project_workload h.workloads;
  source_status = values_with project_source_status h.source_status;
}

abbrev pub project : Option Time → InventorySnapshot → ActualState
project last_sync_at s = record {
  hosts = map project_host s.hosts;
  metadata = record {
    is_partial = s.metadata.is_partial;
    total_hosts = pos s.metadata.total_hosts;
    failed_hosts = pos s.metadata.failed_hosts;
    last_sync_at = last_sync_at;
  };
}

workloads_lem :
    (ws : List Inventory.Domain.Workload)
    → map to_workload (map read_workload (map Inventory.Http.to_workload_dto ws))
      ≡ map project_workload ws
unfolding to_workload Inventory.Http.to_workload_dto
workloads_lem [] = refl
workloads_lem (w ∷ ws) = ap (◌∷◌ (project_workload w)) (workloads_lem ws)

host_lem :
    (h : Inventory.Domain.Host)
    → HasMaps h
    → to_host (read_host (Inventory.Http.to_host_dto h)) ≡ project_host h
unfolding to_host Inventory.Http.to_host_dto to_source_status Inventory.Http.to_source_status_dto
host_lem h m = cc (
  copy-eq h.labels m.labels,
  copy_with-same (λ (s : String). s) (λ s. refl) h.labels,
  workloads_lem h.workloads,
  copy_with-thrice to_source_status read_source_status Inventory.Http.to_source_status_dto
      h.source_status m.source_status,
)

hosts_lem :
    (hs : List Inventory.Domain.Host)
    → All HasMaps hs
    → map to_host (map read_host (map Inventory.Http.to_host_dto hs)) ≡ map project_host hs
hosts_lem [] m = refl
hosts_lem (h ∷ hs) m = ap₂ ◌∷◌ (host_lem h m.0) (hosts_lem hs m.1)

read_actual_state-answer_hosts :
    (times : Rfc3339) (documents : Documents) (store : Inventory.Store.Store) (t : Option Time)
    (body : String)
    → All HasMaps store.snapshot.hosts
    → Reads times store.snapshot.metadata.last_sync_at t
    → documents.unmarshal body ≡ ok (answer_hosts times store []).body
    → read_actual_state times documents body ≡ ok (project t store.snapshot)
unfolding read_actual_state answer_hosts to_domain parse_label_filters Inventory.Filter.list_hosts
    Inventory.Filter.filter_hosts_by_labels Inventory.Store.get_snapshot
    Inventory.Http.to_hosts_response_metadata
read_actual_state-answer_hosts times documents store t body maps reads document =
    simp
      (
        document,
        clone_snapshot-eq store.snapshot maps,
        clone_hosts-eq store.snapshot.hosts maps,
        decode_response-encode_hosts times _ (map Inventory.Http.to_host_dto store.snapshot.hosts) t
            reads,
        hosts_lem store.snapshot.hosts maps,
      )
      refl

-- One call to a store whose hosts have maps.
fetch_actual_state-answer_hosts :
    {W : Type 0} (times : Rfc3339) (documents : Documents) (http : Http W)
    (cfg : InventoryClientConfig) (store : Inventory.Store.Store) (t : Option Time) (body : String)
    (w w' : W)
    → leb_ℤ cfg.retry.max_attempts (pos 0) ≡ false
    → All HasMaps store.snapshot.hosts
    → Reads times store.snapshot.metadata.last_sync_at t
    → documents.unmarshal body ≡ ok (answer_hosts times store []).body
    → http.get (cfg.base_url ++ cfg.hosts_path) w
      ≡ (response (answer_hosts times store []).status body, w')
    → fetch_actual_state times documents http cfg w ≡ (ok (project t store.snapshot), w')
unfolding fetch_actual_state fetch_once answer_hosts
fetch_actual_state-answer_hosts times documents http cfg store t body w w' h maps reads document
      answered =
    with_retries-first_value _ cfg.retry w w'
      (read_reply 200 (read_actual_state times documents) (response 200 body))
      (project t store.snapshot) h (rw answered refl)
      (read_reply-response 200 (read_actual_state times documents) body (project t store.snapshot)
        (read_actual_state-answer_hosts times documents store t body maps reads document))

-- Where InventorySvc has started, the detector's request for the hosts, after any number of the scheduler's
-- ticks, gets, after one call, what the store's snapshot holds: every host in order with its identifier, name,
-- labels, status, workloads and the status of each source, and whether the snapshot is partial. The instant
-- of the last sync, if there is one, can be read as it was printed, the document can be read as it was written,
-- the server answers with the handler's answer to a request without a filter, and the client may call once.
pub fetch_actual_state-run_scheduler :
    {W : Type 0} (times : Rfc3339) (documents : Documents) (http : Http W)
    (cfg : InventoryClientConfig) (env : Env) (link : Link env.World) (quote : String → String)
    {Bytes : Type 0} (setup : Setup Bytes) (config_path : String) (v v' : env.World)
    (started : Started) (ticks : ℕ) (t : Option Time) (body : String) (w w' : W)
    → start_service env link quote setup config_path v ≡ (ok started, v')
    → let store = (run_scheduler env link quote started ticks v').0 in
      leb_ℤ cfg.retry.max_attempts (pos 0) ≡ false
      → Reads times store.snapshot.metadata.last_sync_at t
      → documents.unmarshal body ≡ ok (answer_hosts times store []).body
      → http.get (cfg.base_url ++ cfg.hosts_path) w
        ≡ (response (answer_hosts times store []).status body, w')
      → fetch_actual_state times documents http cfg w ≡ (ok (project t store.snapshot), w')
fetch_actual_state-run_scheduler times documents http cfg env link quote setup config_path v v'
      started ticks t body w w' begun h reads document answered =
    let serving =
      run_scheduler-IsServing env link quote setup config_path v v' started ticks begun in
    fetch_actual_state-answer_hosts times documents http cfg
      (run_scheduler env link quote started ticks v').0 t body w w' h serving.maps reads document
      answered
