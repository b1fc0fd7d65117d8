-- ===== src/Drift/Domain.antt =====
-- DriftDetectorSvc/internal/domain/model.go
use infrastructure_managemen.Common.{
  ℕ, String, Bool, true, false, Option, none, some, List, [], ◌∷◌, ◌==◌, if◌then◌else◌, Result, ok,
  err,
}
use infrastructure_managemen.Common.Int.{ℤ}
use infrastructure_managemen.Common.Text.{trim_space, to_lower, equal_fold}
use infrastructure_managemen.Common.Maps.{Map, lookup}
use infrastructure_managemen.Common.Clock.{Time}
use Prim.Native.String.{◌++◌}

-- A component is a text; the constants are the two supported ones.
abbrev pub Component : Type 0
Component = String

abbrev pub node_exporter : Component
node_exporter = "node_exporter"

abbrev pub cadvisor : Component
cadvisor = "cadvisor"

unfoldable pub parse_component : String → Result String Component
unfolding trim_space to_lower
parse_component value =
    let v = to_lower (trim_space value) in
    if v == node_exporter
    then ok node_exporter
    else if v == cadvisor
    then ok cadvisor
    else err ("unsupported component: " ++ value)

pub record DesiredWorkload : Type 0 where
  pub name : String
  pub enabled : Bool
  pub deployment_mode : String
  pub image : String
  pub version : Option String
  pub port : Option ℤ

pub record DesiredHost : Type 0 where
  pub host_id : String
  pub fqdn : String
  pub labels : Map String
  pub workloads : List DesiredWorkload

pub record DesiredMetadata : Type 0 where
  pub ready : Bool
  pub ready_reason : String
  pub files_loaded : ℤ
  pub files_broken : ℤ
  pub hosts_total : ℤ
  pub workloads_total : ℤ
  pub loaded_at : Option Time

pub record DesiredState : Type 0 where
  pub hosts : List DesiredHost
  pub metadata : DesiredMetadata

unfoldable pub find_workload : Component → List DesiredWorkload → Option DesiredWorkload
unfolding trim_space equal_fold
find_workload component [] = none
find_workload component (w ∷ ws) =
    if equal_fold (trim_space w.name) component then some w else find_workload component ws

-- h.DesiredWorkload(component)
unfoldable pub desired_workload : DesiredHost → Component → Option DesiredWorkload
unfolding find_workload
desired_workload h component = find_workload component h.workloads

pub record ActualSourceStatus : Type 0 where
  pub source : String
  pub enabled : Bool
  pub status : String
  pub error : String

pub record ActualWorkload : Type 0 where
  pub name : String

pub record ActualHost : Type 0 where
  pub host_id : String
  pub fqdn : String
  pub labels : Map String
  pub status : String
  pub workloads : List ActualWorkload
  pub source_status : Map ActualSourceStatus

pub record ActualMetadata : Type 0 where
  pub is_partial : Bool
  pub total_hosts : ℤ
  pub failed_hosts : ℤ
  pub last_sync_at : Option Time

pub record ActualState : Type 0 where
  pub hosts : List ActualHost
  pub metadata : ActualMetadata

unfoldable pub any_workload : Component → List ActualWorkload → Bool
unfolding trim_space equal_fold
any_workload component [] = false
any_workload component (w ∷ ws) =
    if equal_fold (trim_space w.name) component then true else any_workload component ws

-- h.HasWorkload(component)
unfoldable pub has_workload : ActualHost → Component → Bool
unfolding any_workload
has_workload h component = any_workload component h.workloads

abbrev pub source_ok : Option ActualSourceStatus → Bool
source_ok none = false
source_ok (some s) = if s.enabled then equal_fold (trim_space s.status) "ok" else false

-- h.IsSourceHealthy(source)
unfoldable pub is_source_healthy : ActualHost → String → Bool
unfolding trim_space equal_fold lookup
is_source_healthy h source = source_ok (lookup source h.source_status)

pub record DriftFinding : Type 0 where
  pub component : Component
  pub host_id : String
  pub fqdn : String
  pub reason : String

-- The values that a command's parameters take.
pub data Parameter : Type 0 where
  text : String → Parameter
  number : ℤ → Parameter

pub record ReconcileCommand : Type 0 where
  pub host_id : String
  pub fqdn : String
  pub component : Component
  pub correlation_id : String
  pub parameters : Map Parameter

pub record ReconcileAccepted : Type 0 where
  pub request_id : String
  pub accepted_at : Option Time
  pub component : Component
  pub fqdn : String
  pub correlation_id : String

pub record DetectorResult : Type 0 where
  pub component : Component
  pub applicable : Bool
  pub missing_actual_data : Bool
  pub missing_actual_host : Bool
  pub drift : Bool
  pub skip_reason : String
  pub finding : Option DriftFinding
  pub reconcile_command : Option ReconcileCommand

pub record DetectionStats : Type 0 where
  pub desired_hosts : ℕ
  pub compared_hosts : ℕ
  pub skipped_hosts_no_actual_host : ℕ
  pub skipped_hosts_no_actual_data : ℕ
  pub drifts_found : ℕ
  pub reconcile_sent : ℕ
  pub reconcile_suppressed : ℕ
  pub errors : ℕ

pub record DetectionStageTimings : Type 0 where
  pub inventory_fetch_ms : ℤ
  pub parser_fetch_ms : ℤ
  pub drift_comparison_ms : ℤ
  pub reconcile_dispatch_ms : ℤ

pub record DetectionCycleResult : Type 0 where
  pub cycle_id : String
  pub trigger : String
  pub started_at : Time
  pub finished_at : Time
  pub duration_ms : ℤ
  pub stage_timings : DetectionStageTimings
  pub partial : Bool
  pub inventory_marked_partial : Bool
  pub parser_ready : Bool
  pub stats : DetectionStats
  pub warnings : List String
  pub error_messages : List String

-- `copy` of a slice of texts
unfoldable pub clone_texts : List String → List String
clone_texts [] = []
clone_texts (s ∷ ss) = s ∷ clone_texts ss

-- r.Clone()
unfoldable pub clone : DetectionCycleResult → DetectionCycleResult
unfolding clone_texts
clone r = record {
  cycle_id = r.cycle_id;
  trigger = r.trigger;
  started_at = r.started_at;
  finished_at = r.finished_at;
  duration_ms = r.duration_ms;
  stage_timings = r.stage_timings;
  partial = r.partial;
  inventory_marked_partial = r.inventory_marked_partial;
  parser_ready = r.parser_ready;
  stats = r.stats;
  warnings = clone_texts r.warnings;
  error_messages = clone_texts r.error_messages;
}
