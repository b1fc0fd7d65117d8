-- ===== src/Platform/Tests.antt =====
-- The detector's clients on the services that the modules of tests start.
use infrastructure_managemen.Common.{ℕ, ◌+◌, ◌≡◌, refl, true, none, some, [], ◌∷◌, ok}
use infrastructure_managemen.Common.Int.{pos}
use infrastructure_managemen.Common.Json.{Json, Rfc3339}
use infrastructure_managemen.Drift.Config.{RetryConfig, ParserClientConfig, InventoryClientConfig}
use infrastructure_managemen.Drift.Clients.Retry.{Documents, Http, response}
use infrastructure_managemen.Drift.Clients.Parser.{fetch_desired_state}
use infrastructure_managemen.Drift.Clients.Inventory.{fetch_actual_state}
use infrastructure_managemen.Drift.Domain.{is_source_healthy}
use infrastructure_managemen.Inventory.Domain
use infrastructure_managemen.Inventory.Domain.{Host, clone_snapshot, clone_time_ptr}
use infrastructure_managemen.Inventory.Http.Handlers.{answer_hosts}
use infrastructure_managemen.Inventory
use infrastructure_managemen.Inventory.App.{run_scheduler, run_ticks}
use infrastructure_managemen.Inventory.Sync.{
  sync, collect_hosts, finish_sync, metadata_of, normalize_seeds,
}
use infrastructure_managemen.Inventory.Store.{replace}
use infrastructure_managemen.Parser
use infrastructure_managemen.Parser.Http.Handlers.{get_desired_state}
use infrastructure_managemen.Parser.Tests.{floats, unmarshal, now}
use infrastructure_managemen.Platform
use infrastructure_managemen.Platform.Desired.{fetch_desired_state-start_service}
use infrastructure_managemen.Platform.Actual.{fetch_actual_state-run_scheduler}
use infrastructure_managemen.Platform.Actual.Codec.{Reads}
use infrastructure_managemen.Platform.Health.{reports_ok, is_source_healthy-project_host}
use infrastructure_managemen.Common.Maps.{lookup}

abbrev pub times : Rfc3339
times = record { print = λ t. "now"; parse = λ s. ok now }

abbrev retry : RetryConfig
retry = record { max_attempts = pos 2; backoff = pos 0 }

-- One document, and a server that sends its text.
abbrev documents : Json → Documents
documents document = record { marshal = λ d. ok "document"; unmarshal = λ s. ok document }

abbrev http : Http ℕ
http = record {
  get = λ url w. (response 200 "document", w + 1);
  post = λ url body w. (response 500 "", w + 1);
  wait = λ delay w. (none, w);
}

abbrev parser_config : ParserClientConfig
parser_config = record {
  base_url = "http://parser";
  desired_state_path = "/api/v1/desired-state";
  timeout = pos 5;
  retry = retry;
}

abbrev inventory_config : InventoryClientConfig
inventory_config = record {
  base_url = "http://inventory";
  hosts_path = "/api/v1/hosts";
  timeout = pos 5;
  retry = retry;
}

abbrev pub served : Parser.Store.Store
served = Parser.App.Tests.store

fetch_desired_state-start_service_example :
    fetch_desired_state times (documents (get_desired_state times served).body) http parser_config 0
    ≡ (ok (Platform.Desired.project now served.snapshot), 1)
unfolding get_desired_state
fetch_desired_state-start_service_example =
    fetch_desired_state-start_service times (documents (get_desired_state times served).body) http
      parser_config floats Parser.App.Tests.files Parser.App.Tests.paths unmarshal
      Parser.App.Tests.read Parser.App.Tests.build now "app.yaml" served now "document" 0 1
      Parser.App.Tests.started refl refl refl refl

abbrev pub stored : Inventory.Store.Store
stored =
    (run_scheduler Inventory.App.Tests.env Inventory.App.Tests.link Inventory.App.Tests.quote
      Inventory.App.Tests.first 2 Inventory.App.Tests.later).0

pub was_synced : Reads times stored.snapshot.metadata.last_sync_at (some now)
unfolding run_scheduler run_ticks sync collect_hosts finish_sync metadata_of replace clone_snapshot
    clone_time_ptr normalize_seeds
was_synced = refl

fetch_actual_state-run_scheduler_example :
    fetch_actual_state times (documents (answer_hosts times stored []).body) http inventory_config 0
    ≡ (ok (Platform.Actual.project (some now) stored.snapshot), 1)
unfolding answer_hosts
fetch_actual_state-run_scheduler_example =
    fetch_actual_state-run_scheduler times (documents (answer_hosts times stored []).body) http
      inventory_config Inventory.App.Tests.env Inventory.App.Tests.link Inventory.App.Tests.quote
      Inventory.App.Tests.setup "app.yaml" 0 Inventory.App.Tests.later Inventory.App.Tests.first 2
      (some now) "document" 0 1 Inventory.App.Tests.begun refl was_synced refl refl

abbrev host : Host
host = record {
  id = "web";
  fqdn = "web";
  labels = [];
  workloads = [];
  last_observed_at = none;
  status = Domain.HostStatus.ok;
  source_status =
      (
        "cadvisor",
        record {
          source = "cadvisor";
          enabled = true;
          status = Domain.SourceStatusType.ok;
          observed_at = none;
          error = "";
        },
      )
      ∷ [];
  errors = [];
}

is_source_healthy-project_host_example :
    is_source_healthy (Platform.Actual.project_host host) "cadvisor"
    ≡ reports_ok (lookup "cadvisor" host.source_status)
is_source_healthy-project_host_example = is_source_healthy-project_host host "cadvisor"
