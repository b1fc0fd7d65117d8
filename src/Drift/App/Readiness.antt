-- ===== src/Drift/App/Readiness.antt =====
-- When the service gets ready.
use infrastructure_managemen.Common.{
  ℕ, zero, suc, String, ◌≡◌, refl, true, false, none, List, if_both, Result, ok, err, map_err,
}
use infrastructure_managemen.Common.Int.{pos, leb_ℤ}
use infrastructure_managemen.Drift.Config.{Config}
use infrastructure_managemen.Drift.Cooldown
use infrastructure_managemen.Drift.Domain.{
  Component, ActualState, DesiredState, DetectionCycleResult,
}
use infrastructure_managemen.Drift.Clients.Inventory.{fetch_actual_state}
use infrastructure_managemen.Drift.Clients.Parser.{fetch_desired_state}
use infrastructure_managemen.Drift.Detection.Report.{Env, Settings}
use infrastructure_managemen.Drift.Detection.Cycle.{run_cycle, after_actual, after_desired}
use infrastructure_managemen.Drift.Detection.Service.{Service, new_service, is_ready}
use infrastructure_managemen.Drift.Detection.Service.Laws.{run_idle, run-ready, ready-run}
use infrastructure_managemen.Drift.App.{
  Outside, clients_env, settings_of, run_logged, run_ticks, run_scheduler, run_service,
}

module _ (env : Env) (settings : Settings) (trigger : String) (store : Cooldown.Store) where
  open env use {World}

  after_desired-no_error :
      (actual : ActualState) (reply : Result String DesiredState) (desired : DesiredState)
      (r : DetectionCycleResult) (w : World)
      → reply ≡ ok desired
      → (after_desired env settings actual reply r store w).1 ≡ none
  after_desired-no_error actual (err e) desired r w h = absurd (cc)
  after_desired-no_error actual (ok d) desired r w h = refl

  after_actual-no_error :
      (reply : Result String ActualState) (actual : ActualState) (r : DetectionCycleResult)
      (w : World)
      → reply ≡ ok actual
      → ((v : World) → (d : DesiredState) × ((env.fetch_desired_state v).0 ≡ ok d))
      → (after_actual env settings reply r store w).1 ≡ none
  after_actual-no_error (err e) actual r w h fetched = absurd (cc)
  after_actual-no_error (ok a) actual r w h fetched =
      let (d, e) = fetched (env.now w).1 in after_desired-no_error a _ d _ _ e

  run_cycle-no_error :
      (w : World)
      → ((v : World) → (a : ActualState) × ((env.fetch_actual_state v).0 ≡ ok a))
      → ((v : World) → (d : DesiredState) × ((env.fetch_desired_state v).0 ≡ ok d))
      → (run_cycle env settings trigger store w).1 ≡ none
  unfolding run_cycle
  run_cycle-no_error w actual desired =
      let (a, e) = actual (env.now (env.now w).1).1 in after_actual-no_error _ a _ _ e desired

module _ (outside : Outside) (cfg : Config) (components : List Component) where
  open outside use {World, http, times, documents, error_text}

  -- Both clients always get a state.
  pub record AreAnswered : Type 0 where
    pub actual :
        (w : World)
        → (a : ActualState) × ((fetch_actual_state times documents http cfg.clients.inventory w).0
            ≡ ok a)
    pub desired :
        (w : World)
        → (d : DesiredState) × ((fetch_desired_state times documents http cfg.clients.parser w).0
            ≡ ok d)

  -- Ready, with no cycle running.
  pub record IsUp (s : Service) : Type 0 where
    pub idle : s.running ≡ false
    pub ready : is_ready s ≡ true

  told-ok : {V : Type 0} (r : Result _ V) (v : V) → r ≡ ok v → map_err error_text r ≡ ok v
  told-ok (err e) v h = absurd (cc)
  told-ok (ok x) v h = cc

  startup-IsUp :
      (w : World)
      → AreAnswered
      → IsUp (run_logged outside cfg components "startup" (new_service Cooldown.new_store, w)).0
  unfolding run_logged clients_env
  startup-IsUp w answered =
      let env = clients_env outside cfg in
      let settings = settings_of outside cfg components in
      let s = new_service Cooldown.new_store in
      record {
        idle = (run_idle env settings "startup" s w refl).1;
        ready = ready-run env settings "startup" s w refl (
            run_cycle-no_error env settings "startup" Cooldown.new_store w
              (λ v. let (a, e) = answered.actual v in (a, told-ok _ a e))
              (λ v. let (d, e) = answered.desired v in (d, told-ok _ d e)));
      }

  run_logged-IsUp :
      (trigger : String) (s : Service) (w : World)
      → IsUp s
      → IsUp (run_logged outside cfg components trigger (s, w)).0
  unfolding run_logged clients_env
  run_logged-IsUp trigger s w up =
      let env = clients_env outside cfg in
      let settings = settings_of outside cfg components in
      record {
        idle = (run_idle env settings trigger s w up.idle).1;
        ready = rw (run-ready env settings trigger s w up.idle, up.ready) refl;
      }

  run_ticks-IsUp :
      (ticks : ℕ) (state : Service × World)
      → IsUp state.0
      → IsUp (run_ticks outside cfg components ticks state).0
  unfolding run_ticks
  run_ticks-IsUp zero state up = up
  run_ticks-IsUp (suc ticks) (s, w) up = run_ticks-IsUp ticks _ (run_logged-IsUp "scheduler" s w up)

  -- If both clients always get a state, the service is idle and ready after its first cycle, and after any number of
  -- the scheduler's ticks.
  pub run_service-IsUp :
      (ticks : ℕ) (w : World) → AreAnswered → IsUp (run_service outside cfg components ticks w).0
  unfolding run_service run_scheduler
  run_service-IsUp ticks w answered =
      let up = startup-IsUp w answered in
      if_both (λ (r : Service × World). IsUp r.0) (leb_ℤ cfg.detection.interval (pos 0)) _ _ up
        (run_ticks-IsUp ticks _ up)
