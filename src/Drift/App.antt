-- ===== src/Drift/App.antt =====
-- Run of DriftDetectorSvc/internal/app/app.go as far as its cycles: the one at the start, and the scheduler's of
-- DriftDetectorSvc/internal/scheduler/scheduler.go. The log and the server are left out.
pub mod Laws
pub mod Readiness
mod Tests
use infrastructure_managemen.Common.Logger.{LoggerError, Build, new_logger}
use infrastructure_managemen.Common.{
  ℕ, zero, suc, String, Option, none, List, [], ◌∷◌, if◌then◌else◌, Result, ok, err, ◌>>=◌, map_err,
}
use infrastructure_managemen.Common.Int.{pos, leb_ℤ}
use infrastructure_managemen.Common.Clock.{Time}
use infrastructure_managemen.Common.Json.{Rfc3339}
use infrastructure_managemen.Drift.Config
use infrastructure_managemen.Drift.Config.{Config, ConfigError, UrlParser, parse_enabled_components}
use infrastructure_managemen.Drift.Clients.Retry.{Http, Documents, ClientError}
use infrastructure_managemen.Drift.Clients.Inventory.{fetch_actual_state}
use infrastructure_managemen.Drift.Clients.Parser.{fetch_desired_state}
use infrastructure_managemen.Drift.Clients.Reconciler.{send_reconcile}
use infrastructure_managemen.Drift.Cooldown
use infrastructure_managemen.Drift.Domain.{Component}
use infrastructure_managemen.Drift.Detectors.{cadvisor_detector, node_exporter_detector}
use infrastructure_managemen.Drift.Registry.{new_registry}
use infrastructure_managemen.Drift.Detection.Report.{Env, Settings}
use infrastructure_managemen.Drift.Detection.Service.{Service, new_service, run}

pub data StartError : Type 0 where
  not_configured : ConfigError → StartError
  no_logger : LoggerError → StartError
  not_parsed : String → StartError

-- The network, the clock, and the text of a client's error.
pub record Outside : Type 1 where
  pub World : Type 0
  pub http : Http World
  pub now : World → Time × World
  pub times : Rfc3339
  pub documents : Documents
  pub error_text : ClientError → String

abbrev pub told :
    {V W : Type 0} → (ClientError → String) → Result ClientError V × W → Result String V × W
told tell (r, w) = (map_err tell r, w)

module _ (outside : Outside) where
  open outside use {World, http, now, times, documents, error_text}

  -- The clients, as NewService gets them.
  unfoldable pub clients_env : Config → Env
  clients_env cfg = record {
    World = World;
    now = now;
    fetch_actual_state =
        λ w. told error_text (fetch_actual_state times documents http cfg.clients.inventory w);
    fetch_desired_state =
        λ w. told error_text (fetch_desired_state times documents http cfg.clients.parser w);
    send_reconcile = λ command w.
        told error_text (send_reconcile times documents http cfg.clients.reconciler command w);
  }

  unfoldable pub settings_of : Config → List Component → Settings
  settings_of cfg components = record {
    registry = new_registry (node_exporter_detector ∷ cadvisor_detector ∷ []);
    reconcile_cooldown = cfg.anti_spam.reconcile_cooldown;
    enabled_components = components;
  }

  unfoldable pub prepare :
      UrlParser
      → (String → Result ConfigError Config)
      → (String → Result String String)
      → Build
      → String
      → Result StartError (Config × List Component)
  prepare parse read absolute build config_path = do
    (cfg, cfg_file_path) ← map_err not_configured (Config.load parse read absolute config_path)
    log ← map_err no_logger (new_logger build cfg.logging.level)
    components ← map_err not_parsed (parse_enabled_components cfg.detection.enabled_components)
    ok (cfg, components)

  -- One call of RunCycle, whose error is logged only.
  unfoldable pub run_logged : Config → List Component → String → Service × World → Service × World
  unfolding clients_env
  run_logged cfg components trigger (s, w) =
      let (outcome, s', w') = run (clients_env cfg) (settings_of cfg components) trigger s w in
      (s', w')

  -- The loop of the scheduler over so many ticks.
  unfoldable pub run_ticks : Config → List Component → ℕ → Service × World → Service × World
  run_ticks cfg components zero state = state
  run_ticks cfg components (suc ticks) state =
      run_ticks cfg components ticks (run_logged cfg components "scheduler" state)

  -- (*Scheduler).Start, until the context ends after so many ticks
  unfoldable pub run_scheduler : Config → List Component → ℕ → Service × World → Service × World
  run_scheduler cfg components ticks state =
      if leb_ℤ cfg.detection.interval (pos 0) then state else run_ticks cfg components ticks state

  -- The service after its first cycle and so many of the scheduler's.
  unfoldable pub run_service : Config → List Component → ℕ → World → Service × World
  run_service cfg components ticks w =
      run_scheduler cfg components ticks
        (run_logged cfg components "startup" (new_service Cooldown.new_store, w))
