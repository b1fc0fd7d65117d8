-- ===== src/Parser/Http/Handlers.antt =====
-- ParserSvc/internal/transport/http/handlers.go: each handler answers from the store, which nothing changes once
-- the server runs.
use infrastructure_managemen.Common.{
  String, Option, none, some, List, [], ◌∷◌, ◌==◌, if◌then◌else◌, map, length,
}
use infrastructure_managemen.Common.Text.{trim_space}
use infrastructure_managemen.Common.Maps.{Map, insert}
use infrastructure_managemen.Common.Json.{Rfc3339, Answer, first_value}
use infrastructure_managemen.Parser.Domain.{DesiredHost, SnapshotMetadata}
use infrastructure_managemen.Parser.Store.{Store, get_snapshot, get_host, is_ready}
use infrastructure_managemen.Parser.Query.{Query, list_hosts}
use infrastructure_managemen.Parser.Http.{
  ReadinessResponse, to_desired_host_dto, to_desired_state_response, encode_api_error,
  encode_health, encode_readiness, encode_desired_state, encode_hosts, encode_found,
}

unfoldable pub healthz : Answer
healthz = record { status = 200; body = encode_health "ok" }

unfoldable pub readiness : SnapshotMetadata → String → ReadinessResponse
readiness m status = record {
  status = status;
  ready_reason = m.ready_reason;
  loaded_files = m.files_loaded;
  broken_files = m.files_broken;
  hosts_total = m.hosts_total;
}

unfoldable pub readyz : Store → Answer
readyz s =
    let m = (get_snapshot s).metadata in
    if is_ready s
    then record { status = 200; body = encode_readiness (readiness m "ready") }
    else record { status = 503; body = encode_readiness (readiness m "not_ready") }

-- One turn of parseHostQuery's loop, for a value that is trimmed.
unfoldable pub add_filter : String → String → Query → Query
add_filter key value q =
    if value == ""
    then q
    else if key == "fqdn"
    then record q { fqdn = value }
    else record q { label_filters = insert key value q.label_filters }

unfoldable pub parse_host_query : Map (List String) → Query
parse_host_query [] = record { fqdn = ""; label_filters = [] }
parse_host_query ((key, values) ∷ query) =
    add_filter key (first_value values) (parse_host_query query)

module _ (times : Rfc3339) where
  unfoldable pub get_desired_state : Store → Answer
  get_desired_state s = record {
    status = 200;
    body = encode_desired_state times (to_desired_state_response (get_snapshot s));
  }

  -- ListHosts, for the values of the request's query
  unfoldable pub answer_hosts : Store → Map (List String) → Answer
  answer_hosts s query =
      let host_dtos = map to_desired_host_dto (list_hosts s (parse_host_query query)) in
      let m = (get_snapshot s).metadata in
      record {
        status = 200;
        body =
            encode_hosts times
              (record {
                loaded_at = m.loaded_at;
                total_hosts = m.hosts_total;
                returned_hosts = length host_dtos;
                workloads_total = m.workloads_total;
                files_loaded = m.files_loaded;
                files_broken = m.files_broken;
              })
              host_dtos;
      }

  unfoldable pub answer_found : SnapshotMetadata → Option DesiredHost → Answer
  answer_found m none = record { status = 404; body = encode_api_error "host not found" }
  answer_found m (some host) = record {
    status = 200;
    body =
        encode_found times
          (record {
            loaded_at = m.loaded_at;
            files_loaded = m.files_loaded;
            files_broken = m.files_broken;
          })
          (to_desired_host_dto host);
  }

  -- GetHostByID, for the path's parameter
  unfoldable pub get_host_by_id : Store → String → Answer
  get_host_by_id s host_id =
      answer_found (get_snapshot s).metadata (get_host s (trim_space host_id))
