-- ===== src/Inventory/App/Tests.antt =====
-- A service that starts with two hosts, the first of which has no cAdvisor that answers.
use infrastructure_managemen.Common.Logger.{new_logger, level_of}
use infrastructure_managemen.Common.{
  ℕ, ◌+◌, String, ◌≡◌, refl, true, false, Option, none, some, List, [], ◌∷◌, ◌==◌, if◌then◌else◌,
  ok,
}
use infrastructure_managemen.Common.Int.{pos}
use infrastructure_managemen.Common.Resolve.{Paths}
use infrastructure_managemen.Common.Json.{
  Json, text, array, object, member, no_members, element, no_elements,
}
use infrastructure_managemen.Inventory.Config.{
  Config, load, validate, config_errors, check_cadvisor, normalize, normalize_cadvisor_config,
  resolve_path, rooted,
}
use infrastructure_managemen.Common.Text.{trim_space, to_lower}
use infrastructure_managemen.Common.Checks.{bad_port, complain, is_blank, or_default}
use infrastructure_managemen.Common.Paths.{trim_suffix_slash}
use infrastructure_managemen.Common.Maps.{lookup, insert, has}
use infrastructure_managemen.Inventory.Bootstrap
use infrastructure_managemen.Inventory.Bootstrap.{
  check_seeds, check_seed, check_labels, check_fqdn, check_id, check_required, add_if, see_id,
  see_fqdn, lacks,
}
use infrastructure_managemen.Inventory.Domain.{HostSeed}
use infrastructure_managemen.Inventory.Store.{new_store, set_ready}
use infrastructure_managemen.Inventory.Sync.{
  Env, normalize_seeds, normalize_seed, sync, collect_hosts, finish_sync,
}
use infrastructure_managemen.Inventory.Cadvisor.Client.{response, not_executed}
use infrastructure_managemen.Inventory.Cadvisor.Source.{Link}
use infrastructure_managemen.Inventory.Tests.{at_time, complete_seed}
use infrastructure_managemen.Inventory.App.{
  Started, Setup, build_sources, prepare, start_service, run_scheduler,
}
use infrastructure_managemen.Inventory.App.Laws.{IsServing, run_scheduler-IsServing}

abbrev pub env : Env
env = record { World = ℕ; now = λ w. (at_time w, w + 1); done = λ w. (none, w) }

abbrev seeds : List HostSeed
seeds = complete_seed "a" ∷ complete_seed "b" ∷ []

abbrev or_empty : Option String → String
or_empty none = ""
or_empty (some s) = s

abbrev container : Json
container = object (
    member "name" (text "/docker/1")
      (member "aliases" (array (element (text "web") no_elements)) no_members))

abbrev pub link : Link ℕ
link = record {
  now = λ w. (at_time w, w + 1);
  get = λ timeout url w.
      (if url == "a"
        then (not_executed "no route to host", w)
        else (response 200 "" (ok "containers"), w));
  replace = λ pairs template. or_empty (lookup "{{fqdn}}" pairs);
  times = record { print = λ t. "now"; parse = λ s. ok (at_time 0) };
  unmarshal = λ body. ok (array (element container no_elements));
}

abbrev pub quote : String → String
quote s = s

abbrev pub config : Config
config = record {
  server = record { port = pos 8080 };
  logging = record { level = "info" };
  sync = record { interval = pos 30 };
  sources = record {
    cadvisor = record {
      is_enabled = true;
      include_system_workloads = true;
      scheme = "http";
      port = pos 8080;
      base_path = "/api";
      containers_path = "/subcontainers/";
      timeout = pos 5;
      url_template = "{{fqdn}}";
    };
    netbox = record { is_enabled = false };
    other_sources = record { is_enabled = true };
  };
  bootstrap = record { self_provisioning_path = "/etc/hosts.yaml" };
}

abbrev paths : Paths
paths = record {
  is_abs = λ path. true;
  exists = λ path. true;
  absolute = λ path. ok path;
  beside = λ file path. path;
}

abbrev pub setup : Setup String
setup = record {
  paths = paths;
  read = λ path. ok config;
  build = λ level. ok tt;
  read_file = λ path. ok "seeds";
  unmarshal = λ content. ok seeds;
}

abbrev pub first : Started
first = record {
  config = config;
  seeds = normalize_seeds seeds;
  store =
      set_ready true
        (sync env (build_sources env link quote config) (normalize_seeds seeds) new_store 0).1;
}

abbrev pub later : ℕ
later = (sync env (build_sources env link quote config) (normalize_seeds seeds) new_store 0).2

pub begun : start_service env link quote setup "app.yaml" 0 ≡ (ok first, later)
unfolding start_service prepare new_logger level_of to_lower load is_blank trim_space validate
    config_errors check_cadvisor normalize normalize_cadvisor_config complain bad_port resolve_path
    Bootstrap.load Bootstrap.validate normalize_seeds normalize_seed check_seeds check_seed
    check_labels check_fqdn check_id check_required add_if see_id see_fqdn lacks or_default rooted
    trim_suffix_slash lookup insert has sync collect_hosts finish_sync
begun = refl

run_scheduler-IsServing_example :
    IsServing env link quote first (run_scheduler env link quote first 2 later).0
run_scheduler-IsServing_example =
    run_scheduler-IsServing env link quote setup "app.yaml" 0 later first 2 begun
