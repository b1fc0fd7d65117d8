-- ===== src/Drift/Config/Tests.antt =====
-- A configuration whose texts are not normalized.
use infrastructure_managemen.Common.{String, ◌≡◌, ◌↔◌, refl, none, some, [], ◌∷◌, Result, ok}
use infrastructure_managemen.Common.Int.{pos}
use infrastructure_managemen.Common.Text.{trim_space, to_lower}
use infrastructure_managemen.Common.Paths.{trim_right_slashes}
use infrastructure_managemen.Common.Checks.{bad_port, complain, is_blank, or_default}
use infrastructure_managemen.Common.Maps.{has, insert, lookup}
use infrastructure_managemen.Drift.Domain.{parse_component}
use infrastructure_managemen.Drift.Config.{
  Config, ConfigError, RetryConfig, UrlParser, load, normalize, validate, config_errors, own_errors,
  check_components, validate_http_client_config, check_url, check_path, normalized, normalize_path,
  normalize_url, normalize_clients, normalize_components,
}
use infrastructure_managemen.Drift.Config.Laws.{IsValid, validate_config_iff}
use infrastructure_managemen.Drift.Config.Loading.{IsUsable, load-IsUsable}

abbrev retry : RetryConfig
retry = record { max_attempts = pos 3; backoff = pos 0 }

abbrev pub parse : UrlParser
parse url = some ("http", "localhost")

abbrev pub read_config : Config
read_config = record {
  server = record { host = " "; port = pos 8080 };
  logging = record { level = "INFO" };
  detection = record {
    interval = pos 60;
    enabled_components = " Cadvisor " ∷ "node_exporter" ∷ "cadvisor" ∷ "" ∷ [];
  };
  anti_spam = record { reconcile_cooldown = pos 1000 };
  clients = record {
    inventory = record {
      base_url = " http://localhost/ ";
      hosts_path = "api/v1/hosts";
      timeout = pos 5;
      retry = retry;
    };
    parser = record {
      base_url = "http://localhost";
      desired_state_path = "/api/v1/desired-state";
      timeout = pos 5;
      retry = retry;
    };
    reconciler = record {
      base_url = "http://localhost";
      reconcile_path = "/reconcile";
      timeout = pos 5;
      retry = retry;
    };
  };
}

validate_config_iff_example : (validate parse read_config ≡ none) ↔ IsValid parse read_config
validate_config_iff_example = validate_config_iff parse read_config

abbrev pub read : String → Result ConfigError Config
read path = ok read_config

abbrev pub absolute : String → Result String String
absolute path = ok path

pub accepted : load parse read absolute "app.yaml" ≡ ok (normalize read_config, "app.yaml")
unfolding load normalize validate config_errors own_errors check_components
    validate_http_client_config check_url check_path is_blank bad_port normalized normalize_path
    normalize_url normalize_clients normalize_components or_default trim_space to_lower
    trim_right_slashes complain parse_component has insert lookup
accepted = refl

load-IsUsable_example : IsUsable parse (normalize read_config)
load-IsUsable_example =
    load-IsUsable parse read absolute "app.yaml" (normalize read_config) "app.yaml" accepted
