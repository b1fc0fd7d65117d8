-- ===== src/Platform/Start/Tests.antt =====
-- The detector with the servers of the services that the modules of tests start.
use infrastructure_managemen.Common.Checks.{or_default}
use infrastructure_managemen.Common.Logger.{new_logger, level_of}
use infrastructure_managemen.Common.{
  ℕ, ◌+◌, ◌==◌, if◌then◌else◌, String, refl, none, some, [], ◌∷◌, ok,
}
use infrastructure_managemen.Drift.Config.{RetryConfig, ParserClientConfig, InventoryClientConfig}
use infrastructure_managemen.Drift.Clients.Retry.{response}
use infrastructure_managemen.Drift.Domain.{parse_component}
use infrastructure_managemen.Common.Text.{trim_space, to_lower}
use infrastructure_managemen.Inventory.Http.Handlers.{answer_hosts}
use infrastructure_managemen.Inventory
use infrastructure_managemen.Inventory.App.{run_scheduler, run_ticks}
use infrastructure_managemen.Parser
use infrastructure_managemen.Parser.Http.Handlers.{get_desired_state}
use infrastructure_managemen.Parser.Tests.{floats, unmarshal, now}
use infrastructure_managemen.Platform.Start.{
  IsConfigured, ParserAnswers, InventoryAnswers, run_service-start_service,
}
use infrastructure_managemen.Common.Paths.{trim_right_slashes}
use infrastructure_managemen.Drift.App.{Outside, prepare, run_service}
use infrastructure_managemen.Drift.App.Readiness.{IsUp}
use infrastructure_managemen.Drift.Config
use infrastructure_managemen.Drift.Config.{
  Config, normalize, parse_enabled_components, normalized, normalize_components, normalize_clients,
  normalize_path, normalize_url,
}
use infrastructure_managemen.Common.Maps.{lookup, insert, has}
use infrastructure_managemen.Platform.Tests.{times, served, stored, was_synced}

abbrev loaded : Config
loaded = normalize Config.Tests.read_config

-- The two servers of one address, and the documents that they send.
abbrev outside : Outside
outside = record {
  World = ℕ;
  http = record {
    get = λ url w. (
      if url == "http://localhost/api/v1/hosts"
          then response 200 "hosts"
          else response 200 "desired state",
      w + 1,
    );
    post = λ url body w. (response 500 "", w + 1);
    wait = λ delay w. (none, w);
  };
  now = λ w. (now, w);
  times = times;
  documents = record {
    marshal = λ d. ok "document";
    unmarshal = λ s.
        (if s == "hosts"
          then ok (answer_hosts times stored []).body
          else ok (get_desired_state times served).body);
  };
  error_text = λ e. "no answer";
}

configured : IsConfigured outside loaded ("cadvisor" ∷ "node_exporter" ∷ [])
unfolding prepare or_default new_logger level_of normalize parse_enabled_components parse_component
    normalized trim_space to_lower normalize_components has insert lookup
configured = record {
  parse = Config.Tests.parse;
  read = Config.Tests.read;
  absolute = Config.Tests.absolute;
  build = Parser.App.Tests.build;
  path = "app.yaml";
  prepared = rw Config.Tests.accepted refl;
}

parser_answers : ParserAnswers outside loaded
unfolding get_desired_state normalize normalize_clients normalize_path normalize_url trim_space
    trim_right_slashes
parser_answers = record {
  floats = floats;
  Bytes = String;
  files = Parser.App.Tests.files;
  paths = Parser.App.Tests.paths;
  unmarshal = unmarshal;
  read = Parser.App.Tests.read;
  build = Parser.App.Tests.build;
  now = now;
  config_path = "app.yaml";
  store = served;
  started = Parser.App.Tests.started;
  t = now;
  parsed = refl;
  body = "desired state";
  document = refl;
  answered = λ w. refl;
}

inventory_answers : InventoryAnswers outside loaded
unfolding answer_hosts normalize normalize_clients normalize_path normalize_url trim_space
    trim_right_slashes
inventory_answers = record {
  env = Inventory.App.Tests.env;
  link = Inventory.App.Tests.link;
  quote = Inventory.App.Tests.quote;
  Bytes = String;
  setup = Inventory.App.Tests.setup;
  config_path = "app.yaml";
  start_world = 0;
  world = Inventory.App.Tests.later;
  first = Inventory.App.Tests.first;
  started = Inventory.App.Tests.begun;
  answer = λ w. record {
    ticks = 2;
    t = some now;
    body = "hosts";
    reads = was_synced;
    document = refl;
    answered = refl;
  };
}

run_service-start_service_example :
    IsUp outside loaded
      ("cadvisor" ∷ "node_exporter" ∷ [])
      (run_service outside loaded ("cadvisor" ∷ "node_exporter" ∷ []) 2 0).0
run_service-start_service_example =
    run_service-start_service outside loaded ("cadvisor" ∷ "node_exporter" ∷ []) 2 0 configured
      parser_answers inventory_answers
