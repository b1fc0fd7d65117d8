-- ===== src/Drift/Http.antt =====
-- DriftDetectorSvc/internal/transport/http: dto.go, with the documents that encoding/json writes of it, and
-- handlers.go.
pub mod Laws
mod Tests
use Prim.Native.String.{◌++◌}
use infrastructure_managemen.Common.{
  ℕ, String, Bool, true, false, not, Option, none, some, List, [], ◌∷◌, ◌==◌, if◌then◌else◌, Result,
}
use infrastructure_managemen.Common.Int.{ℤ}
use infrastructure_managemen.Common.Clock.{Time, utc, zero_time}
use infrastructure_managemen.Common.Json.{
  Json, bool, number, text, array, object, Members, no_members, member, Rfc3339, Answer, unless,
  elements, nullable, is_nil, has_none, count,
}
use infrastructure_managemen.Drift.Domain.{
  DetectionStageTimings, DetectionStats, DetectionCycleResult,
}
use infrastructure_managemen.Drift.Detection.Report.{
  Env, Settings, FetchError, actual_state_failed, desired_state_failed, start_result,
}
use infrastructure_managemen.Drift.Detection.Service.{
  Service, is_ready, last_cycle_result, CycleError, cycle_already_running, fetch_failed, Outcome,
  run,
}

pub record ReadinessResponse : Type 0 where
  pub status : String
  pub last_cycle_id : String
  pub last_cycle_at : Option Time
  pub last_cycle_partial : Bool

pub record DetectionCycleDto : Type 0 where
  pub cycle_id : String
  pub trigger : String
  pub started_at : Time
  pub finished_at : Time
  pub duration_ms : ℤ
  pub stage_timings : DetectionStageTimings
  pub partial : Bool
  pub inventory_marked_partial : Bool
  pub parser_ready : Bool
  pub stats : DetectionStats
  pub warnings : List String
  pub error_messages : List String

unfoldable pub to_detection_cycle_dto : DetectionCycleResult → DetectionCycleDto
to_detection_cycle_dto r = record {
  cycle_id = r.cycle_id;
  trigger = r.trigger;
  started_at = r.started_at;
  finished_at = r.finished_at;
  duration_ms = r.duration_ms;
  stage_timings = r.stage_timings;
  partial = r.partial;
  inventory_marked_partial = r.inventory_marked_partial;
  parser_ready = r.parser_ready;
  stats = r.stats;
  warnings = r.warnings;
  error_messages = r.error_messages;
}

abbrev texts : List String → Json
texts ss = array (elements text ss)

unfoldable pub encode_api_error : String → Json
encode_api_error message = object (member "message" (text message) no_members)

unfoldable pub encode_health : String → Json
encode_health status = object (member "status" (text status) no_members)

-- The domain's records have no tags: the keys are the names of their fields.
unfoldable pub encode_timings : DetectionStageTimings → Json
encode_timings t = object (
    member "InventoryFetchMs" (number t.inventory_fetch_ms) (
      member "ParserFetchMs" (number t.parser_fetch_ms) (
        member "DriftComparisonMs" (number t.drift_comparison_ms)
          (member "ReconcileDispatchMs" (number t.reconcile_dispatch_ms) no_members))))

unfoldable pub encode_stats : DetectionStats → Json
encode_stats s = object (
    member "DesiredHosts" (count s.desired_hosts) (
      member "ComparedHosts" (count s.compared_hosts) (
        member "SkippedHostsNoActualHost" (count s.skipped_hosts_no_actual_host) (
          member "SkippedHostsNoActualData" (count s.skipped_hosts_no_actual_data) (
            member "DriftsFound" (count s.drifts_found) (
              member "ReconcileSent" (count s.reconcile_sent) (
                member "ReconcileSuppressed" (count s.reconcile_suppressed)
                  (member "Errors" (count s.errors) no_members))))))))

module _ (times : Rfc3339) where
  abbrev instant : Time → Json
  instant t = text (times.print t)

  unfoldable pub encode_readiness : ReadinessResponse → Json
  encode_readiness r = object (
      member "status" (text r.status) (
        unless (r.last_cycle_id == "") "lastCycleId" (text r.last_cycle_id) (
          unless (is_nil r.last_cycle_at) "lastCycleAt" (nullable instant r.last_cycle_at) (
            unless (not r.last_cycle_partial) "lastCyclePartial" (bool r.last_cycle_partial)
              no_members))))

  unfoldable pub encode_cycle : DetectionCycleDto → Json
  encode_cycle r = object (
      member "cycleId" (text r.cycle_id) (
        member "trigger" (text r.trigger) (
          member "startedAt" (instant r.started_at) (
            member "finishedAt" (instant r.finished_at) (
              member "durationMs" (number r.duration_ms) (
                member "stageTimings" (encode_timings r.stage_timings) (
                  member "partial" (bool r.partial) (
                    member "inventoryMarkedPartial" (bool r.inventory_marked_partial) (
                      member "parserReady" (bool r.parser_ready) (
                        member "stats" (encode_stats r.stats) (
                          unless (has_none r.warnings) "warnings" (texts r.warnings) (
                            unless (has_none r.error_messages) "errorMessages"
                              (texts r.error_messages) no_members))))))))))))

  unfoldable pub encode_run : String → DetectionCycleDto → Json
  encode_run status result =
      object (member "status" (text status) (member "result" (encode_cycle result) no_members))

unfoldable pub healthz : Answer
healthz = record { status = 200; body = encode_health "ok" }

-- The response before the service is asked whether it is ready.
unfoldable pub last_cycle : Option DetectionCycleResult → String → ReadinessResponse
last_cycle none status = record {
  status = status;
  last_cycle_id = "";
  last_cycle_at = none;
  last_cycle_partial = false;
}
last_cycle (some r) status = record {
  status = status;
  last_cycle_id = r.cycle_id;
  last_cycle_at = some (utc r.finished_at);
  last_cycle_partial = r.partial;
}

-- `s` at LastCycleResult and `s'` at IsReady
unfoldable pub readyz : Rfc3339 → Service → Service → Answer
readyz times s s' =
    if is_ready s'
    then record {
      status = 200;
      body = encode_readiness times (last_cycle (last_cycle_result s) "ready");
    }
    else record {
      status = 503;
      body = encode_readiness times (last_cycle (last_cycle_result s) "not_ready");
    }

-- err.Error() of the errors that RunCycle wraps
unfoldable pub error_text : FetchError → String
error_text (actual_state_failed e) = "fetch actual state from inventory: " ++ e
error_text (desired_state_failed e) = "fetch desired state from parser: " ++ e

-- RunCycle's result, which is the zero one where a cycle was running.
unfoldable pub result_or_zero : Option DetectionCycleResult → DetectionCycleResult
result_or_zero none = record (start_result "" zero_time) { cycle_id = "" }
result_or_zero (some r) = r

unfoldable pub run_answer : Rfc3339 → DetectionCycleResult → Option CycleError → Answer
run_answer times r (some cycle_already_running) = record {
  status = 409;
  body = encode_api_error "detection cycle already running";
}
run_answer times r (some (fetch_failed e)) = record {
  status = 502;
  body = encode_api_error (error_text e);
}
run_answer times r none = record {
  status = 200;
  body = encode_run times "completed" (to_detection_cycle_dto r);
}

module _ (times : Rfc3339) (env : Env) (settings : Settings) where
  open env use {World}

  unfoldable pub run_detection_cycle : Service → World → Answer × Service × World
  run_detection_cycle s w =
      let (outcome, s', w') = run env settings "manual_api" s w in
      (run_answer times (result_or_zero outcome.result) outcome.error, s', w')
