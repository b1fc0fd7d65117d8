-- ===== src/Drift/Detection/Cycle/Counts.antt =====
-- The counters of a cycle's result, over the whole cycle.
use infrastructure_managemen.Common.{
  ℕ, suc, String, refl, Bool, true, false, not, Option, none, some, List, [], ◌∷◌, arith, length,
  if_both, Result, ok, err,
}
use infrastructure_managemen.Common.Clock.{Time}
use infrastructure_managemen.Drift.Domain.{
  Component, DesiredHost, DesiredState, ActualHost, ActualState, ReconcileCommand,
  ReconcileAccepted, DetectorResult, DetectionCycleResult,
}
use infrastructure_managemen.Drift.Cooldown
use infrastructure_managemen.Drift.Cooldown.{can_send, build_key}
use infrastructure_managemen.Drift.Detectors.{Detector}
use infrastructure_managemen.Drift.Detection.Hosts.{Index, index_actual_hosts, lookup_actual_host}
use infrastructure_managemen.Drift.Detection.Report.{
  Env, Settings, Loop, FetchError, start_result, add_error, add_warning, mark_partial, prepare,
  count_compared, count_sent, count_suppressed, note_missing_host,
}
use infrastructure_managemen.Drift.Detection.Cycle.{
  finish_result, start_loop, conclude, settle, send, send_if, dispatch, act, judge, check_found,
  check_components, check_host, check_hosts, compare_states, fetch_failed, after_desired,
  after_actual, run_cycle,
}
use infrastructure_managemen.Drift.Detection.Report.Counts.{
  forget_room, IsCounted, room_of, IsNew, add_error-IsCounted, add_error-IsCounted_open,
  count_drift-IsCounted, note_missing_data-IsCounted, prepare-IsCounted, add_error-IsCounted_new,
  IsCounted-same,
}

module _ (env : Env) where
  open env use {World}

  module _ {n room : ℕ} where
    settle-IsCounted :
        (command : ReconcileCommand) (key : String) (at : Time)
        (reply : Result String ReconcileAccepted) (l : Loop World)
        → IsCounted n 1 room l.result
        → IsCounted n 0 room (settle env command key at reply l).result
    unfolding settle count_sent
    settle-IsCounted command key at (err e) l c = add_error-IsCounted_open _ l.result c
    settle-IsCounted command key at (ok accepted) l c = ground arith

    send_if-IsCounted :
        (allowed : Bool) (command : ReconcileCommand) (key : String) (at : Time) (l : Loop World)
        → IsCounted n 1 room l.result
        → IsCounted n 0 room (send_if env allowed command key at l).result
    unfolding send_if send count_suppressed
    send_if-IsCounted true command key at l c = settle-IsCounted command key at _ _ c
    send_if-IsCounted false command key at l c = ground arith

  module _ (settings : Settings) where
    act-IsCounted :
        {n room : ℕ} (component : Component) (command : Option ReconcileCommand) (l : Loop World)
        → IsCounted n 1 room l.result
        → IsCounted n 0 room (act env settings component command l).result
    unfolding act dispatch
    act-IsCounted component none l c = add_error-IsCounted_open _ l.result c
    act-IsCounted component (some command) l c = send_if-IsCounted _ command _ _ _ c

    -- The host's flag and the result agree.
    abbrev Agrees : ℕ → Bool × Loop World → Type 0
    Agrees n s = IsCounted n 0 (room_of s.0) s.1.result

    judge-IsCounted :
        {n : ℕ} (component : Component) (desired : DesiredHost) (d : DetectorResult)
        (skipped : Bool) (l : Loop World)
        → IsCounted n 0 (room_of skipped) l.result
        → Agrees n (judge env settings component desired d skipped l)
    unfolding judge
    judge-IsCounted {n} component desired d skipped l c =
        if_both (Agrees n) (not d.applicable) _ _ c (
          if_both (Agrees n) d.missing_actual_data _ _
            (note_missing_data-IsCounted component desired skipped d l.result c)
            (if_both (Agrees n) (not d.drift) _ _ c
              (act-IsCounted component d.reconcile_command _ (count_drift-IsCounted l.result c))))

    check_found-IsCounted :
        {n : ℕ} (desired : DesiredHost) (actual : ActualHost) (component : Component)
        (found : Option Detector) (skipped : Bool) (l : Loop World)
        → IsCounted n 0 (room_of skipped) l.result
        → Agrees n (check_found env settings desired actual component found skipped l)
    unfolding check_found
    check_found-IsCounted desired actual component none skipped l c =
        add_error-IsCounted _ l.result c
    check_found-IsCounted desired actual component (some detector) skipped l c =
        judge-IsCounted component desired _ skipped l c

    check_components-IsCounted :
        {n : ℕ} (desired : DesiredHost) (actual : ActualHost) (components : List Component)
        (skipped : Bool) (l : Loop World)
        → IsCounted n 0 (room_of skipped) l.result
        → Agrees n (check_components env settings desired actual components skipped l)
    unfolding check_components
    check_components-IsCounted desired actual [] skipped l c = c
    check_components-IsCounted desired actual (component ∷ rest) skipped l c =
        check_components-IsCounted desired actual rest _ _
          (check_found-IsCounted desired actual component _ skipped l c)

    check_host-IsCounted :
        {n : ℕ} (desired : DesiredHost) (found : Option ActualHost) (l : Loop World)
        → IsCounted (suc n) 0 0 l.result
        → IsCounted n 0 0 (check_host env settings desired found l).result
    unfolding check_host note_missing_host add_warning mark_partial count_compared
    check_host-IsCounted desired none l c = ground arith
    check_host-IsCounted desired (some actual) l c =
        let s =
          check_components env settings desired actual settings.enabled_components false
            (record l { result = count_compared l.result }) in
        forget_room s.0 s.1.result (
          check_components-IsCounted desired actual settings.enabled_components false
            (record l { result = count_compared l.result }) (ground arith))

    check_hosts-IsCounted :
        (ix : Index) (hosts : List DesiredHost) (l : Loop World)
        → IsCounted (length hosts) 0 0 l.result
        → IsCounted 0 0 0 (check_hosts env settings ix hosts l).result
    unfolding check_hosts
    check_hosts-IsCounted ix [] l c = c
    check_hosts-IsCounted ix (desired ∷ rest) l c =
        check_hosts-IsCounted ix rest _
          (check_host-IsCounted desired (lookup_actual_host desired ix) l c)

    compare_states-IsCounted :
        (actual : ActualState) (desired : DesiredState) (r : DetectionCycleResult)
        (store : Cooldown.Store) (w : World)
        → IsNew r
        → IsCounted 0 0 0 (compare_states env settings actual desired r store w).0
    unfolding compare_states conclude finish_result
    compare_states-IsCounted actual desired r store w new = IsCounted-same _ _ refl refl (
        check_hosts-IsCounted (index_actual_hosts actual.hosts) desired.hosts
          (start_loop env (prepare actual desired r) store (env.now w).0 (env.now w).1)
          (prepare-IsCounted actual desired r new))

    fetch_failed-IsCounted :
        (m : String) (e : FetchError) (r : DetectionCycleResult) (w : World)
        → IsNew r
        → IsCounted 0 0 0 (fetch_failed env m e r w).0
    unfolding fetch_failed finish_result
    fetch_failed-IsCounted m e r w new =
        IsCounted-same (add_error m r) _ refl refl (add_error-IsCounted_new m r new)

    after_desired-IsCounted :
        (actual : ActualState) (reply : Result String DesiredState) (r : DetectionCycleResult)
        (store : Cooldown.Store) (w : World)
        → IsNew r
        → IsCounted 0 0 0 (after_desired env settings actual reply r store w).0
    after_desired-IsCounted actual (err e) r store w new = fetch_failed-IsCounted _ _ r w new
    after_desired-IsCounted actual (ok desired) r store w new =
        compare_states-IsCounted actual desired r store w new

    after_actual-IsCounted :
        (reply : Result String ActualState) (r : DetectionCycleResult) (store : Cooldown.Store)
        (w : World)
        → IsNew r
        → IsCounted 0 0 0 (after_actual env settings reply r store w).0
    after_actual-IsCounted (err e) r store w new = fetch_failed-IsCounted _ _ r w new
    after_actual-IsCounted (ok actual) r store w new =
        after_desired-IsCounted actual _ _ _ _
          (record { no_stats = new.no_stats; no_messages = new.no_messages })

-- In the result of every cycle, also of one whose fetch failed, the desired hosts are as many as the compared
-- and the skipped ones together, the hosts without data are at most the compared ones, the drifts are at
-- least the sent and the suppressed ones, and at most these and the errors, and there are as many messages
-- as errors.
pub run_cycle-IsCounted :
    (env : Env) (settings : Settings) (trigger : String) (store : Cooldown.Store) (w : env.World)
    → IsCounted 0 0 0 (run_cycle env settings trigger store w).0
unfolding run_cycle start_result
run_cycle-IsCounted env settings trigger store w =
    after_actual-IsCounted env settings _ _ store _ (record { no_stats = refl; no_messages = refl })
