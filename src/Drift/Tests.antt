-- ===== src/Drift/Tests.antt =====
-- One desired host that lacks cadvisor, a clock that ticks at every reading, and runs on them.
use mathlib.Core.List.{Memᴰ}
use infrastructure_managemen.Common.{
  length, ℕ, ◌+◌, String, ◌≡◌, refl, ◌⊎◌, true, false, Option, none, some, List, [], ◌∷◌, Result,
  ok,
}
use infrastructure_managemen.Common.Int.{pos, ◌-ℤ◌}
use infrastructure_managemen.Common.Text.{trim_space, to_lower, equal_fold}
use infrastructure_managemen.Common.Maps.{lookup, insert}
use infrastructure_managemen.Common.Clock.{Time, sub, utc}
use infrastructure_managemen.Drift.Domain.{
  node_exporter, cadvisor, DesiredHost, DesiredState, ActualHost, ActualState, ReconcileCommand,
  ReconcileAccepted, has_workload, is_source_healthy, DetectionCycleResult, desired_workload, clone,
}
use infrastructure_managemen.Drift.Cooldown
use infrastructure_managemen.Drift.Cooldown.{build_key, can_send, mark_sent}
use infrastructure_managemen.Drift.Detectors.{
  cadvisor_detector, node_exporter_detector, detect_cadvisor, detect_node_exporter, drifted,
  is_wanted, resolve_target_fqdn,
}
use infrastructure_managemen.Drift.Registry
use infrastructure_managemen.Drift.Registry.{new_registry, register}
use infrastructure_managemen.Drift.Detection.Hosts.{
  index_actual_hosts, lookup_actual_host, normalized, or_else, index_loop, index_host,
  put_unless_empty, lookup_unless_empty,
}
use infrastructure_managemen.Drift.Detection.Hosts.Laws.{
  match_by, lookup_actual_host_lem, lookup_actual_host_sound,
}
use infrastructure_managemen.Drift.Detection.Report.{
  Env, Settings, start_result, prepare, note_metadata, note_ready, note_partial, count_compared,
  count_drift, count_sent, count_suppressed, note_missing_host, note_missing_data, add_error,
}
use infrastructure_managemen.Drift.Detection.Cycle.{
  run_cycle, compare_states, since, finish_result, conclude, check_hosts, check_host,
  check_components, check_found, judge, act, dispatch, send_if, send, settle,
}
use infrastructure_managemen.Drift.Detection.Report.Counts.{IsCounted}
use infrastructure_managemen.Drift.Detection.Cycle.Counts.{run_cycle-IsCounted}
use infrastructure_managemen.Drift.Detection.Cycle.Spacing.{run_cycle-IsRecorded}
use infrastructure_managemen.Drift.Detection.Recorder.{Recorder, recorded, AreSpaced, IsRecorded}
use infrastructure_managemen.Drift.Detection.Service.{
  Service, new_service, begin_cycle, finish_cycle, persist_result, run, run_all,
}
use infrastructure_managemen.Drift.Detection.Service.Laws.{all_sent_by, run_all-IsRecorded}
use infrastructure_managemen.Drift.Detection.Service.Lock.{
  acquired, refused, LockRun, Represents, actions-LockRun,
}
use infrastructure_managemen.Drift.Detection.Service.Threads.{
  outside, cycling, move, here, next, begin, refuse, Reach-unique, Reach-begins,
}

abbrev pub desired_host : DesiredHost
desired_host = record {
  host_id = "web-1";
  fqdn = "Web1.Example.com";
  labels = [];
  workloads =
      record {
        name = "cadvisor";
        enabled = true;
        deployment_mode = "container";
        image = "cadvisor:v1";
        version = none;
        port = some (pos 8080);
      }
      ∷ [];
}

abbrev pub actual_host : ActualHost
actual_host = record {
  host_id = "web-1 ";
  fqdn = "web1.example.com";
  labels = [];
  status = "ok";
  workloads = [];
  source_status =
      ("cadvisor", record { source = "cadvisor"; enabled = true; status = "ok"; error = "" }) ∷ [];
}

abbrev desired_state : DesiredState
desired_state = record {
  hosts = desired_host ∷ [];
  metadata = record {
    ready = true;
    ready_reason = "";
    files_loaded = pos 1;
    files_broken = pos 0;
    hosts_total = pos 1;
    workloads_total = pos 1;
    loaded_at = none;
  };
}

abbrev actual_state : ActualState
actual_state = record {
  hosts = actual_host ∷ [];
  metadata = record {
    is_partial = false;
    total_hosts = pos 1;
    failed_hosts = pos 0;
    last_sync_at = none;
  };
}

abbrev pub at_time : ℕ → Time
at_time n = record { wall = pos n; mono = none }

abbrev accept : ReconcileCommand → ℕ → Result String ReconcileAccepted × ℕ
accept command w = (
  ok (record {
    request_id = "r";
    accepted_at = none;
    component = command.component;
    fqdn = command.fqdn;
    correlation_id = command.correlation_id;
  }),
  w,
)

-- The world is the time.
abbrev pub env : Env
env = record {
  World = ℕ;
  now = λ w. (at_time w, w + 1);
  fetch_actual_state = λ w. (ok actual_state, w);
  fetch_desired_state = λ w. (ok desired_state, w);
  send_reconcile = accept;
}

abbrev pub settings : Settings
settings = record {
  registry = new_registry (cadvisor_detector ∷ node_exporter_detector ∷ []);
  reconcile_cooldown = pos 1000;
  enabled_components = node_exporter ∷ cadvisor ∷ [];
}

abbrev pub service : Service
service = new_service Cooldown.new_store

abbrev busy_service : Service
busy_service = record service { running = true }

-- Nothing is logged at the start.
abbrev fresh : Recorder ℕ
fresh = record { world = 1; latest = at_time 0; before = at_time 0; decided = at_time 0; sent = [] }

nothing_sent : IsRecorded (pos 1000) Cooldown.new_store []
unfolding AreSpaced
nothing_sent = record { kept = λ key. refl; spaced = tt }

run_all-IsRecorded_example :
    let (outcomes, s', w') =
      run_all (recorded env) settings ("startup" ∷ "schedule" ∷ []) service fresh in
    IsRecorded (pos 1000) s'.cooldown_store w'.sent
    × (length w'.sent ≡ 0 + all_sent_by env settings outcomes)
run_all-IsRecorded_example =
    run_all-IsRecorded env settings ("startup" ∷ "schedule" ∷ []) service fresh refl nothing_sent

run_cycle-IsRecorded_example :
    let (r, error, store, w') =
      run_cycle (recorded env) settings "manual" Cooldown.new_store fresh in
    IsRecorded (pos 1000) store w'.sent × (length w'.sent ≡ 0 + r.stats.reconcile_sent)
run_cycle-IsRecorded_example =
    run_cycle-IsRecorded env settings "manual" Cooldown.new_store fresh nothing_sent

run_cycle-IsCounted_example :
    IsCounted 0 0 0 (run_cycle env settings "manual" Cooldown.new_store 1).0
run_cycle-IsCounted_example = run_cycle-IsCounted env settings "manual" Cooldown.new_store 1

Reach-unique_example : ◌≡◌ {A = ℕ} 0 0
unfolding begin_cycle
Reach-unique_example =
    Reach-unique {store = Cooldown.new_store} 0 0
      (next (next here (begin 0 refl refl)) (refuse 1 refl refl)) refl refl

Reach-begins_example : (begin_cycle service).0 ≡ true
Reach-begins_example = Reach-begins {store = Cooldown.new_store} here (λ i. refl)

actions-LockRun_example :
    (holder : Option ℕ) × (LockRun (refused 1 ∷ acquired 0 ∷ []) holder
      × Represents (record { service = busy_service; at = move (λ i. outside) 0 cycling }) holder)
unfolding begin_cycle
actions-LockRun_example =
    actions-LockRun {store = Cooldown.new_store}
      (next (next here (begin 0 refl refl)) (refuse 1 refl refl))

lookup_actual_host_lem_example :
    lookup_actual_host desired_host (index_actual_hosts (actual_host ∷ []))
    ≡ or_else
        (match_by (λ h. h.host_id) "web-1" (actual_host ∷ []))
        (match_by (λ h. h.fqdn) "Web1.Example.com" (actual_host ∷ []))
lookup_actual_host_lem_example = lookup_actual_host_lem desired_host (actual_host ∷ [])

lookup_actual_host_sound_example :
    Memᴰ actual_host (actual_host ∷ [])
    × ((normalized "web-1 " ≡ normalized "web-1")
        ⊎ (normalized "web1.example.com" ≡ normalized "Web1.Example.com"))
unfolding lookup_actual_host index_actual_hosts index_loop index_host put_unless_empty normalized
    lookup_unless_empty trim_space to_lower lookup insert
lookup_actual_host_sound_example =
    lookup_actual_host_sound desired_host (actual_host ∷ []) actual_host refl

-- The drifts, the sent and the suppressed commands, and the errors of a last result.
abbrev numbers : Option DetectionCycleResult → List ℕ
numbers none = []
numbers (some r) =
    r.stats.drifts_found ∷ r.stats.reconcile_sent ∷ r.stats.reconcile_suppressed ∷ r.stats.errors
    ∷ []

-- The first cycle sends the command for the drift that it finds; the second one holds it back.
two_cycles :
    (numbers (run_all env settings ("startup" ∷ []) service 1).1.last_result ≡ 1 ∷ 1 ∷ 0 ∷ 0 ∷ [])
    × (numbers (run_all env settings ("startup" ∷ "schedule" ∷ []) service 1).1.last_result
        ≡ 1 ∷ 0 ∷ 1 ∷ 0 ∷ [])
unfolding run_all run begin_cycle persist_result finish_cycle clone run_cycle compare_states since
    finish_result conclude start_result prepare note_metadata note_ready note_partial
    index_actual_hosts index_loop index_host put_unless_empty normalized lookup_actual_host
    lookup_unless_empty check_hosts check_host check_components check_found judge act dispatch
    send_if send settle count_compared count_drift count_sent count_suppressed note_missing_host
    note_missing_data add_error Registry.get new_registry register can_send mark_sent build_key
    detect_cadvisor detect_node_exporter drifted desired_workload is_wanted is_source_healthy
    has_workload resolve_target_fqdn lookup insert trim_space to_lower equal_fold sub utc ◌-ℤ◌
two_cycles = (refl, refl)
