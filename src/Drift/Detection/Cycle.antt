-- ===== src/Drift/Detection/Cycle.antt =====
-- runCycle and finishResult of DriftDetectorSvc/internal/service/detection/service.go. The clock and
-- the clients are an `Env` with a state of its own; the log is not modelled.
pub mod Counts
pub mod Spacing
use Prim.Native.String.{◌++◌ as concat}
use infrastructure_managemen.Common.{
  ℕ, ◌+◌, String, Bool, true, false, Option, none, some, List, [], ◌∷◌, ◌++◌, ◌==◌, not,
  if◌then◌else◌, length, Result, ok, err,
}
use infrastructure_managemen.Common.Int.{ℤ, pos, ◌+ℤ◌}
use infrastructure_managemen.Common.Text.{trim_space}
use infrastructure_managemen.Common.Numerals.{itoa}
use infrastructure_managemen.Common.Clock.{Time, Duration, sub, utc, milliseconds, zero_time}
use infrastructure_managemen.Drift.Domain.{
  Component, DesiredHost, DesiredState, ActualHost, ActualState, ReconcileCommand,
  ReconcileAccepted, DetectorResult, DetectionStats, DetectionCycleResult,
}
use infrastructure_managemen.Drift.Cooldown
use infrastructure_managemen.Drift.Cooldown.{build_key, can_send, mark_sent}
use infrastructure_managemen.Drift.Detectors.{Detector}
use infrastructure_managemen.Drift.Registry
use infrastructure_managemen.Drift.Registry.{Registry}
use infrastructure_managemen.Drift.Detection.Hosts.{Index, index_actual_hosts, lookup_actual_host}
use infrastructure_managemen.Drift.Detection.Report.{
  Env, Settings, FetchError, actual_state_failed, desired_state_failed, Loop, start_result,
  add_error, add_warning, mark_partial, prepare, count_compared, count_drift, count_sent,
  count_suppressed, note_missing_host, note_missing_data,
}

module _ (env : Env) where
  open env use {World, now, fetch_actual_state, fetch_desired_state, send_reconcile}

  -- time.Since(t)
  unfoldable pub since : Time → World → Duration × World
  since t w = let (t', w') = now w in (sub t' t, w')

  unfoldable pub finish_result : DetectionCycleResult → World → DetectionCycleResult × World
  finish_result r w =
      let (t, w₁) = now w in
      let (d, w₂) = since r.started_at w₁ in
      (record r { finished_at = utc t; duration_ms = milliseconds d }, w₂)

  unfoldable pub fetch_failed :
      String
      → FetchError
      → DetectionCycleResult
      → World
      → DetectionCycleResult × Option FetchError × World
  fetch_failed message e r w =
      let (r', w') = finish_result (add_error message r) w in (r', some e, w')

  abbrev pub start_loop : DetectionCycleResult → Cooldown.Store → Time → World → Loop World
  start_loop r store timer w = record {
    result = r;
    cooldown_store = store;
    compare_timer = timer;
    compare_duration = pos 0;
    dispatch_duration = pos 0;
    world = w;
  }

  -- The stage timings and the end of a cycle whose loop is through.
  unfoldable pub conclude : Loop World → DetectionCycleResult × World
  conclude l =
      let (d, w) = since l.compare_timer l.world in
      finish_result
        (record (l.result) {
          stage_timings = record (l.result.stage_timings) {
            drift_comparison_ms = milliseconds (l.compare_duration +ℤ d);
            reconcile_dispatch_ms = milliseconds l.dispatch_duration;
          };
        })
        w

  -- The end of a dispatch: the error of the client, or the mark and the count.
  unfoldable pub settle :
      ReconcileCommand → String → Time → Result String ReconcileAccepted → Loop World → Loop World
  settle command key at (err e) l = record l {
    result =
        add_error
          (concat "reconcile send failed for "
            (concat command.component (concat " on " (concat command.fqdn (concat ": " e)))))
          l.result;
  }
  settle command key at (ok accepted) l = record l {
    cooldown_store = mark_sent l.cooldown_store key at;
    result = count_sent l.result;
  }

  -- SendReconcile between the timers.
  unfoldable pub send : ReconcileCommand → String → Time → Loop World → Loop World
  send command key at l =
      let (d, w₁) = since l.compare_timer l.world in
      let (send_started, w₂) = now w₁ in
      let (reply, w₃) = send_reconcile command w₂ in
      let (send_duration, w₄) = since send_started w₃ in
      let (timer, w₅) = now w₄ in
      settle command key at reply (record l {
        compare_duration = l.compare_duration +ℤ d;
        dispatch_duration = l.dispatch_duration +ℤ send_duration;
        compare_timer = timer;
        world = w₅;
      })

  -- The Boolean is `canSend`.
  unfoldable pub send_if : Bool → ReconcileCommand → String → Time → Loop World → Loop World
  send_if true command key at l = send command key at l
  send_if false command key at l = record l { result = count_suppressed l.result }

  module _ (settings : Settings) where
    -- A command is sent, or suppressed by the cooldown.
    unfoldable pub dispatch : ReconcileCommand → Loop World → Loop World
    dispatch command l =
        let key = build_key command.component command.fqdn in
        let (t, w) = now l.world in
        send_if (can_send l.cooldown_store key (utc t) settings.reconcile_cooldown).0 command key
          (utc t) (record l { world = w })

    unfoldable pub act : Component → Option ReconcileCommand → Loop World → Loop World
    act component none l = record l {
      result =
          add_error
            (concat "detector " (concat component " reported drift without reconcile command"))
            l.result;
    }
    act component (some command) l = dispatch command l

    -- The Boolean beside the loop's state is `hostSkippedNoData`.
    unfoldable pub judge :
        Component → DesiredHost → DetectorResult → Bool → Loop World → Bool × Loop World
    judge component desired d skipped l =
        if not d.applicable
        then (skipped, l)
        else if d.missing_actual_data
        then (true, record l { result = note_missing_data component desired skipped d l.result })
        else if not d.drift
        then (skipped, l)
        else (
          skipped,
          act component d.reconcile_command (record l { result = count_drift l.result }),
        )

    unfoldable pub check_found :
        DesiredHost
        → ActualHost
        → Component
        → Option Detector
        → Bool
        → Loop World
        → Bool × Loop World
    check_found desired actual component none skipped l = (
      skipped,
      record l {
        result = add_error (concat "detector not found for component: " component) l.result;
      },
    )
    check_found desired actual component (some detector) skipped l =
        judge component desired (detector.detect l.result.cycle_id desired actual) skipped l

    -- The inner loop, over the enabled components.
    unfoldable pub check_components :
        DesiredHost → ActualHost → List Component → Bool → Loop World → Bool × Loop World
    check_components desired actual [] skipped l = (skipped, l)
    check_components desired actual (component ∷ rest) skipped l =
        let (skipped', l') =
          check_found desired actual component (Registry.get settings.registry component) skipped
            l in
        check_components desired actual rest skipped' l'

    unfoldable pub check_host : DesiredHost → Option ActualHost → Loop World → Loop World
    check_host desired none l = record l { result = note_missing_host desired l.result }
    check_host desired (some actual) l =
        (check_components desired actual settings.enabled_components false
          (record l { result = count_compared l.result })).1

    -- The outer loop, over the desired hosts.
    unfoldable pub check_hosts : Index → List DesiredHost → Loop World → Loop World
    check_hosts ix [] l = l
    check_hosts ix (desired ∷ rest) l =
        check_hosts ix rest (check_host desired (lookup_actual_host desired ix) l)

    -- The cycle after both fetches.
    unfoldable pub compare_states :
        ActualState
        → DesiredState
        → DetectionCycleResult
        → Cooldown.Store
        → World
        → DetectionCycleResult × Cooldown.Store × World
    compare_states actual desired r store w =
        let (timer, w₁) = now w in
        let l =
          check_hosts (index_actual_hosts actual.hosts) desired.hosts
            (start_loop (prepare actual desired r) store timer w₁) in
        let (r', w₂) = conclude l in (r', l.cooldown_store, w₂)

    abbrev pub after_desired :
        ActualState
        → Result String DesiredState
        → DetectionCycleResult
        → Cooldown.Store
        → World
        → DetectionCycleResult × Option FetchError × Cooldown.Store × World
    after_desired actual (err e) r store w =
        let (r', failure, w') =
          fetch_failed (concat "parser fetch failed: " e) (desired_state_failed e) r w in
        (r', failure, store, w')
    after_desired actual (ok desired) r store w =
        let (r', store', w') = compare_states actual desired r store w in (r', none, store', w')

    abbrev pub after_actual :
        Result String ActualState
        → DetectionCycleResult
        → Cooldown.Store
        → World
        → DetectionCycleResult × Option FetchError × Cooldown.Store × World
    after_actual (err e) r store w =
        let (r', failure, w') =
          fetch_failed (concat "inventory fetch failed: " e) (actual_state_failed e) r w in
        (r', failure, store, w')
    after_actual (ok actual) r store w =
        let (fetch_started, w₁) = now w in
        let (reply, w₂) = fetch_desired_state w₁ in
        let (d, w₃) = since fetch_started w₂ in
        after_desired actual reply
          (record r { stage_timings = record r.stage_timings { parser_fetch_ms = milliseconds d } })
          store w₃

    -- (*Service).runCycle; the error is `none` where Go's is nil
    unfoldable pub run_cycle :
        String
        → Cooldown.Store
        → World
        → DetectionCycleResult × Option FetchError × Cooldown.Store × World
    run_cycle trigger store w =
        let (t, w₁) = now w in
        let (fetch_started, w₂) = now w₁ in
        let (reply, w₃) = fetch_actual_state w₂ in
        let (d, w₄) = since fetch_started w₃ in
        let r = start_result trigger (utc t) in
        after_actual reply
          (record r {
            stage_timings = record r.stage_timings { inventory_fetch_ms = milliseconds d };
          })
          store w₄
