-- ===== src/Inventory/Http/Handlers.antt =====
-- InventorySvc/internal/transport/http/handlers.go. A handler reads the store once or twice; a sync may replace
-- the snapshot between two reads, so each read has a store of its own.
use infrastructure_managemen.Common.{
  String, Option, none, some, List, [], ◌∷◌, ◌==◌, if◌then◌else◌, map, length,
}
use infrastructure_managemen.Common.Text.{trim_space}
use infrastructure_managemen.Common.Maps.{Map, insert}
use infrastructure_managemen.Common.Json.{Rfc3339, Answer, first_value}
use infrastructure_managemen.Inventory.Domain.{Host, InventoryMetadata}
use infrastructure_managemen.Inventory.Store.{Store, get_snapshot, get_host, is_ready}
use infrastructure_managemen.Inventory.Filter.{list_hosts}
use infrastructure_managemen.Inventory.Http.{
  to_host_dto, to_hosts_response_metadata, encode_api_error, encode_health, encode_readiness,
  encode_hosts, encode_found,
}

unfoldable pub healthz : Answer
healthz = record { status = 200; body = encode_health "ok" }

-- One turn of parseLabelFilters' loop, for a value that is trimmed.
unfoldable pub add_filter : String → String → Map String → Map String
add_filter key value filters = if value == "" then filters else insert key value filters

unfoldable pub parse_label_filters : Map (List String) → Map String
parse_label_filters [] = []
parse_label_filters ((key, values) ∷ query) =
    add_filter key (first_value values) (parse_label_filters query)

-- (*Service).GetMetadata
unfoldable pub get_metadata : Store → InventoryMetadata
get_metadata s = (get_snapshot s).metadata

module _ (times : Rfc3339) where
  -- `s` at GetMetadata and `s'` at IsReady
  unfoldable pub readyz : Store → Store → Answer
  readyz s s' =
      let m = get_metadata s in
      if is_ready s'
      then record {
        status = 200;
        body =
            encode_readiness times (record {
              status = "ready";
              is_partial = m.is_partial;
              last_sync_at = m.last_sync_at;
            });
      }
      else record {
        status = 503;
        body = encode_readiness times (record {
          status = "not_ready";
          is_partial = m.is_partial;
          last_sync_at = m.last_sync_at;
        });
      }

  -- ListHosts, for the values of the request's query
  unfoldable pub answer_hosts : Store → Map (List String) → Answer
  answer_hosts s query =
      let (hosts, metadata) = list_hosts s (parse_label_filters query) in
      let host_dtos = map to_host_dto hosts in
      record {
        status = 200;
        body =
            encode_hosts times (to_hosts_response_metadata metadata (length host_dtos)) host_dtos;
      }

  unfoldable pub answer_found : InventoryMetadata → Option Host → Answer
  answer_found m none = record { status = 404; body = encode_api_error "host not found" }
  answer_found m (some host) = record {
    status = 200;
    body =
        encode_found times (record { is_partial = m.is_partial; last_sync_at = m.last_sync_at })
          (to_host_dto host);
  }

  -- GetHost, for the path's parameter; `s` at GetHostByID and `s'` at GetMetadata
  unfoldable pub answer_host : Store → Store → String → Answer
  answer_host s s' id = answer_found (get_metadata s') (get_host s (trim_space id))
