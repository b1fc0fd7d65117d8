-- ===== src/Drift/Detection/Report.antt =====
-- The locals of `runCycle` of DriftDetectorSvc/internal/service/detection/service.go, what it calls
-- outside of the service, and its updates of the cycle's result that depend on nothing else.
pub mod Counts
use Prim.Native.String.{◌++◌ as concat}
use infrastructure_managemen.Common.{
  ◌+◌, String, Bool, true, false, List, [], ◌∷◌, ◌++◌, ◌==◌, if◌then◌else◌, length, Result,
}
use infrastructure_managemen.Common.Int.{pos}
use infrastructure_managemen.Common.Text.{trim_space}
use infrastructure_managemen.Common.Numerals.{itoa}
use infrastructure_managemen.Common.Clock.{Time, Duration, zero_time}
use infrastructure_managemen.Drift.Domain.{
  Component, DesiredHost, DesiredState, ActualState, ReconcileCommand, ReconcileAccepted,
  DetectorResult, DetectionStats, DetectionCycleResult,
}
use infrastructure_managemen.Drift.Cooldown
use infrastructure_managemen.Drift.Cooldown.{build_key, can_send, mark_sent}
use infrastructure_managemen.Drift.Registry.{Registry}

-- The clock and the clients `inventoryClient`, `parserClient` and `reconcilerClient`.
pub record Env : Type 1 where
  pub World : Type 0
  pub now : World → Time × World
  pub fetch_actual_state : World → Result String ActualState × World
  pub fetch_desired_state : World → Result String DesiredState × World
  pub send_reconcile : ReconcileCommand → World → Result String ReconcileAccepted × World

-- The fields that NewService sets once.
pub record Settings : Type 0 where
  pub registry : Registry
  pub reconcile_cooldown : Duration
  pub enabled_components : List Component

-- The errors that `runCycle` returns.
pub data FetchError : Type 0 where
  actual_state_failed desired_state_failed : String → FetchError

-- The locals of the loop, and the cooldown store.
pub record Loop (W : Type 0) : Type 0 where
  pub result : DetectionCycleResult
  pub cooldown_store : Cooldown.Store
  pub compare_timer : Time
  pub compare_duration : Duration
  pub dispatch_duration : Duration
  pub world : W

abbrev pub zero_stats : DetectionStats
zero_stats = record {
  desired_hosts = 0;
  compared_hosts = 0;
  skipped_hosts_no_actual_host = 0;
  skipped_hosts_no_actual_data = 0;
  drifts_found = 0;
  reconcile_sent = 0;
  reconcile_suppressed = 0;
  errors = 0;
}

unfoldable pub start_result : String → Time → DetectionCycleResult
start_result trigger started_at = record {
  cycle_id = itoa started_at.wall;
  trigger = trigger;
  started_at = started_at;
  finished_at = zero_time;
  duration_ms = pos 0;
  stage_timings = record {
    inventory_fetch_ms = pos 0;
    parser_fetch_ms = pos 0;
    drift_comparison_ms = pos 0;
    reconcile_dispatch_ms = pos 0;
  };
  partial = false;
  inventory_marked_partial = false;
  parser_ready = false;
  stats = zero_stats;
  warnings = [];
  error_messages = [];
}

-- result.Stats.Errors++ with its message
unfoldable pub add_error : String → DetectionCycleResult → DetectionCycleResult
add_error message r = record r {
  stats = record r.stats { errors = r.stats.errors + 1 };
  error_messages = r.error_messages ++ message ∷ [];
}

unfoldable pub add_warning : String → DetectionCycleResult → DetectionCycleResult
add_warning message r = record r { warnings = r.warnings ++ message ∷ [] }

unfoldable pub mark_partial : DetectionCycleResult → DetectionCycleResult
mark_partial r = record r { partial = true }

unfoldable pub note_partial : Bool → DetectionCycleResult → DetectionCycleResult
note_partial true r = add_warning "inventory metadata marked response as partial" (mark_partial r)
note_partial false r = r

unfoldable pub note_ready : Bool → String → DetectionCycleResult → DetectionCycleResult
note_ready true reason r = r
note_ready false reason r =
    add_warning
      (if trim_space reason == "" then "parser not ready" else concat "parser not ready: " reason)
      (mark_partial r)

-- What the metadata of the two states say.
unfoldable pub note_metadata :
    ActualState → DesiredState → DetectionCycleResult → DetectionCycleResult
note_metadata actual desired r = note_ready desired.metadata.ready desired.metadata.ready_reason (
    note_partial actual.metadata.is_partial (record r {
      inventory_marked_partial = actual.metadata.is_partial;
      parser_ready = desired.metadata.ready;
    }))

-- What stands in the result when the loop begins.
unfoldable pub prepare : ActualState → DesiredState → DetectionCycleResult → DetectionCycleResult
prepare actual desired r₀ =
    let r = note_metadata actual desired r₀ in
    record r { stats = record r.stats { desired_hosts = length desired.hosts } }

unfoldable pub count_compared : DetectionCycleResult → DetectionCycleResult
count_compared r = record r {
  stats = record r.stats { compared_hosts = r.stats.compared_hosts + 1 };
}

unfoldable pub count_drift : DetectionCycleResult → DetectionCycleResult
count_drift r = record r { stats = record r.stats { drifts_found = r.stats.drifts_found + 1 } }

unfoldable pub count_sent : DetectionCycleResult → DetectionCycleResult
count_sent r = record r { stats = record r.stats { reconcile_sent = r.stats.reconcile_sent + 1 } }

unfoldable pub count_suppressed : DetectionCycleResult → DetectionCycleResult
count_suppressed r = record r {
  stats = record r.stats { reconcile_suppressed = r.stats.reconcile_suppressed + 1 };
}

-- A desired host with no actual host.
unfoldable pub note_missing_host : DesiredHost → DetectionCycleResult → DetectionCycleResult
note_missing_host desired r₀ =
    let r = mark_partial r₀ in
    add_warning
      (concat "actual host is missing for desired host_id="
        (concat desired.host_id (concat " fqdn=" desired.fqdn)))
      (record r {
        stats = record r.stats {
          skipped_hosts_no_actual_host = r.stats.skipped_hosts_no_actual_host + 1;
        };
      })

-- A component on a host without data; the Boolean is the loop's `hostSkippedNoData`.
unfoldable pub count_no_data : Bool → DetectionCycleResult → DetectionCycleResult
count_no_data true r = r
count_no_data false r = record r {
  stats = record r.stats {
    skipped_hosts_no_actual_data = r.stats.skipped_hosts_no_actual_data + 1;
  };
}

unfoldable pub note_missing_data :
    Component → DesiredHost → Bool → DetectorResult → DetectionCycleResult → DetectionCycleResult
note_missing_data component desired skipped d r₀ =
    let r = count_no_data skipped (mark_partial r₀) in
    if trim_space d.skip_reason == ""
    then r
    else add_warning
        (concat component (concat " on " (concat desired.fqdn (concat " skipped: " d.skip_reason))))
        r
