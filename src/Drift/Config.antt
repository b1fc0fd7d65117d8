-- ===== src/Drift/Config.antt =====
-- DriftDetectorSvc/internal/config/config.go, and parseEnabledComponents of
-- DriftDetectorSvc/internal/app/app.go. Viper, net/url and filepath.Abs are arguments.
pub mod Laws
pub mod Loading
pub mod Tests
use Prim.Native.String.{◌++◌ as concat}
use infrastructure_managemen.Common.{
  String, Bool, true, false, ◌||◌, not, Option, none, some, List, [], ◌∷◌, ◌==◌, if◌then◌else◌,
  Result, ok, err, ◌>>=◌,
}
use package.text.Mathlib.Text.{starts_with}
use infrastructure_managemen.Common.Int.{ℤ, pos, leb_ℤ, ltb_ℤ}
use infrastructure_managemen.Common.Text.{trim_space, to_lower, join}
use infrastructure_managemen.Common.Paths.{trim_right_slashes}
use infrastructure_managemen.Common.Checks.{complain, is_blank, bad_port, or_default, report}
use infrastructure_managemen.Common.Maps.{Map, has, insert}
use infrastructure_managemen.Common.Clock.{Duration}
use infrastructure_managemen.Drift.Domain.{Component, parse_component}

pub record ServerConfig : Type 0 where
  pub host : String
  pub port : ℤ

pub record LoggingConfig : Type 0 where
  pub level : String

pub record DetectionConfig : Type 0 where
  pub interval : Duration
  pub enabled_components : List String

pub record AntiSpamConfig : Type 0 where
  pub reconcile_cooldown : Duration

pub record RetryConfig : Type 0 where
  pub max_attempts : ℤ
  pub backoff : Duration

pub record InventoryClientConfig : Type 0 where
  pub base_url : String
  pub hosts_path : String
  pub timeout : Duration
  pub retry : RetryConfig

pub record ParserClientConfig : Type 0 where
  pub base_url : String
  pub desired_state_path : String
  pub timeout : Duration
  pub retry : RetryConfig

pub record ReconcilerClientConfig : Type 0 where
  pub base_url : String
  pub reconcile_path : String
  pub timeout : Duration
  pub retry : RetryConfig

pub record ClientsConfig : Type 0 where
  pub inventory : InventoryClientConfig
  pub parser : ParserClientConfig
  pub reconciler : ReconcilerClientConfig

pub record Config : Type 0 where
  pub server : ServerConfig
  pub logging : LoggingConfig
  pub detection : DetectionConfig
  pub anti_spam : AntiSpamConfig
  pub clients : ClientsConfig

unfoldable pub normalize_path : String → String
normalize_path path =
    let trimmed = trim_space path in
    if trimmed == ""
    then ""
    else if not (starts_with trimmed "/")
    then concat "/" trimmed
    else trimmed

-- strings.ToLower(strings.TrimSpace(s))
unfoldable pub normalized : String → String
normalized s = to_lower (trim_space s)

-- The loop of normalize over the components, from the ones that were seen on.
unfoldable pub normalize_components : Map (Unit {0}) → List String → List String
normalize_components seen [] = []
normalize_components seen (item ∷ items) =
    let value = normalized item in
    let skip = value == "" || has value seen in
    let rest = normalize_components (if skip then seen else insert value tt seen) items in
    if skip then rest else value ∷ rest

unfoldable pub normalize_url : String → String
normalize_url url = trim_right_slashes (trim_space url)

unfoldable pub normalize_clients : ClientsConfig → ClientsConfig
normalize_clients c = record {
  inventory = record c.inventory {
    base_url = normalize_url c.inventory.base_url;
    hosts_path = normalize_path c.inventory.hosts_path;
  };
  parser = record c.parser {
    base_url = normalize_url c.parser.base_url;
    desired_state_path = normalize_path c.parser.desired_state_path;
  };
  reconciler = record c.reconciler {
    base_url = normalize_url c.reconciler.base_url;
    reconcile_path = normalize_path c.reconciler.reconcile_path;
  };
}

-- (*Config).normalize
unfoldable pub normalize : Config → Config
normalize c = record {
  server = record c.server { host = or_default (trim_space c.server.host) "0.0.0.0" };
  logging = record { level = or_default (normalized c.logging.level) "info" };
  detection = record c.detection {
    enabled_components = normalize_components [] c.detection.enabled_components;
  };
  anti_spam = c.anti_spam;
  clients = normalize_clients c.clients;
}

abbrev pub refused : Result String Component → Bool
refused (ok component) = false
refused (err e) = true

-- The loop of Validate over the components.
unfoldable pub check_components : List String → List String → List String
check_components [] errs = errs
check_components (raw ∷ rest) errs = check_components rest (
    complain (refused (parse_component raw))
      (concat "detection.enabledComponents contains unsupported component: " raw) errs)

abbrev pub none_given : List String → Bool
none_given [] = true
none_given (c ∷ cs) = false

-- The head of Validate, before the clients.
unfoldable pub own_errors : Config → List String
own_errors c = check_components c.detection.enabled_components (
    complain (none_given c.detection.enabled_components)
      "detection.enabledComponents must contain at least one component"
      (complain (ltb_ℤ c.anti_spam.reconcile_cooldown (pos 0))
        "antiSpam.reconcileCooldown must be >= 0"
        (complain (leb_ℤ c.detection.interval (pos 0)) "detection.interval must be > 0" (
          complain (is_blank c.logging.level) "logging.level is required" (
            complain (bad_port c.server.port) "server.port must be in range [1..65535]"
              (complain (is_blank c.server.host) "server.host is required" []))))))

-- The scheme and the host of a URL, or none where url.Parse fails.
abbrev pub UrlParser : Type 0
UrlParser = String → Option (String × String)

abbrev pub not_absolute : Option (String × String) → Bool
not_absolute none = true
not_absolute (some (scheme, host)) = scheme == "" || host == ""

unfoldable pub check_url : UrlParser → String → String → List String → List String
check_url parse prefix base_url errs =
    if is_blank base_url
    then complain true (concat prefix ".baseURL is required") errs
    else complain (not_absolute (parse base_url))
        (concat prefix ".baseURL must be a valid absolute URL") errs

unfoldable pub check_path : String → String → List String → List String
check_path prefix path errs =
    if is_blank path
    then complain true (concat prefix " endpoint path is required") errs
    else complain (not (starts_with path "/")) (concat prefix " endpoint path must start with '/'")
        errs

-- validateHTTPClientConfig
unfoldable pub validate_http_client_config :
    UrlParser → String → String → String → Duration → RetryConfig → List String → List String
validate_http_client_config parse prefix base_url path timeout retry errs =
    complain (ltb_ℤ retry.backoff (pos 0)) (concat prefix ".retry.backoff must be >= 0") (
      complain (leb_ℤ retry.max_attempts (pos 0)) (concat prefix ".retry.maxAttempts must be > 0") (
        complain (leb_ℤ timeout (pos 0)) (concat prefix ".timeout must be > 0")
          (check_path prefix path (check_url parse prefix base_url errs))))

unfoldable pub config_errors : UrlParser → Config → List String
config_errors parse c =
    let i = c.clients.inventory in
    let p = c.clients.parser in
    let r = c.clients.reconciler in
    validate_http_client_config parse "clients.reconciler" r.base_url r.reconcile_path r.timeout
      r.retry
      (validate_http_client_config parse "clients.parser" p.base_url p.desired_state_path p.timeout
        p.retry
        (validate_http_client_config parse "clients.inventory" i.base_url i.hosts_path i.timeout
          i.retry (own_errors c)))

-- (Config).Validate
unfoldable pub validate : UrlParser → Config → Option String
validate parse c = report (config_errors parse c)

pub data ConfigError : Type 0 where
  path_required : ConfigError
  read_failed unmarshal_failed invalid no_absolute_path : String → ConfigError

-- The end of Load: the check, and then the absolute path.
abbrev pub finish_load :
    Config → Option String → Result String String → Result ConfigError (Config × String)
finish_load c (some message) absolute = err (invalid message)
finish_load c none (err e) = err (no_absolute_path e)
finish_load c none (ok path) = ok (c, path)

abbrev pub load_read :
    UrlParser
    → Result ConfigError Config
    → Result String String
    → Result ConfigError (Config × String)
load_read parse (err e) absolute = err e
load_read parse (ok c) absolute = finish_load (normalize c) (validate parse (normalize c)) absolute

-- Load: `read` is what viper reads, with its defaults, or its error.
unfoldable pub load :
    UrlParser
    → (String → Result ConfigError Config)
    → (String → Result String String)
    → String
    → Result ConfigError (Config × String)
load parse read absolute path =
    if is_blank path then err path_required else load_read parse (read path) (absolute path)

-- parseEnabledComponents
unfoldable pub parse_enabled_components : List String → Result String (List Component)
parse_enabled_components [] = ok []
parse_enabled_components (item ∷ items) = do
  component ← parse_component item
  rest ← parse_enabled_components items
  ok (component ∷ rest)
