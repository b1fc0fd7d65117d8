-- ===== src/Drift/Detection/Cycle/Spacing.antt =====
-- The requests that a cycle sends, beside the marks that it leaves in the cooldown store.
use infrastructure_managemen.Common.{
  ℕ, ◌+◌, String, ◌≡◌, refl, ap, Bool, true, false, not, Option, none, some, List, [], ◌∷◌, arith,
  if_both, length, Result, ok, err,
}
use infrastructure_managemen.Common.Clock.{Time, Duration, utc}
use infrastructure_managemen.Common.Maps.{Map}
use infrastructure_managemen.Drift.Domain.{
  Component, DesiredHost, DesiredState, ActualHost, ActualState, ReconcileCommand,
  ReconcileAccepted, DetectorResult, DetectionCycleResult,
}
use infrastructure_managemen.Drift.Cooldown
use infrastructure_managemen.Drift.Cooldown.{build_key, can_send, mark_sent}
use infrastructure_managemen.Drift.Detectors.{Detector}
use infrastructure_managemen.Drift.Detection.Hosts.{Index, index_actual_hosts, lookup_actual_host}
use infrastructure_managemen.Drift.Detection.Report.{
  Env, Settings, FetchError, Loop, add_error, count_sent, count_suppressed, count_drift,
  count_compared, note_missing_host, note_missing_data, mark_partial, add_warning, count_no_data,
  prepare, note_metadata, note_ready, note_partial, start_result,
}
use infrastructure_managemen.Drift.Detection.Recorder.{Recorder, recorded, noted, IsRecorded}
use infrastructure_managemen.Drift.Detection.Recorder.Marks.{mark_sent-IsRecorded}
use infrastructure_managemen.Drift.Detection.Cycle.{
  since, settle, send, send_if, dispatch, act, judge, check_found, check_components, check_host,
  check_hosts, compare_states, after_desired, after_actual, run_cycle, finish_result, conclude,
  fetch_failed,
}

-- The log has grown by the requests that the result counts as sent, from `n` on.
record IsLogged (n : ℕ) (c : Duration) (r : DetectionCycleResult) (store : Cooldown.Store)
    (log : Map Time) : Type 0 where
  known : IsRecorded c store log
  counted : length log ≡ n + r.stats.reconcile_sent

-- An update of the result that leaves the count.
recount :
    {n : ℕ} {c : Duration} {store : Cooldown.Store} {log : Map Time} (r r' : DetectionCycleResult)
    → IsLogged n c r store log
    → r'.stats.reconcile_sent ≡ r.stats.reconcile_sent
    → IsLogged n c r' store log
recount r r' i same = record { known = i.known; counted = rw same i.counted }

note_missing_data-sent :
    (component : Component) (desired : DesiredHost) (skipped : Bool) (d : DetectorResult)
    (r : DetectionCycleResult)
    → (note_missing_data component desired skipped d r).stats.reconcile_sent
      ≡ r.stats.reconcile_sent
unfolding note_missing_data mark_partial add_warning count_no_data
note_missing_data-sent component desired true d r = ground arith
note_missing_data-sent component desired false d r = ground arith

note_metadata-sent :
    (actual : ActualState) (desired : DesiredState) (ready partial : Bool)
    (r : DetectionCycleResult)
    → (note_ready ready desired.metadata.ready_reason (note_partial partial r)).stats.reconcile_sent
      ≡ r.stats.reconcile_sent
unfolding note_ready note_partial mark_partial add_warning
note_metadata-sent actual desired true true r = refl
note_metadata-sent actual desired true false r = refl
note_metadata-sent actual desired false true r = refl
note_metadata-sent actual desired false false r = refl

prepare-sent :
    (actual : ActualState) (desired : DesiredState) (r : DetectionCycleResult)
    → (prepare actual desired r).stats.reconcile_sent ≡ r.stats.reconcile_sent
unfolding prepare note_metadata
prepare-sent actual desired r =
    note_metadata-sent actual desired desired.metadata.ready actual.metadata.is_partial _

module _ (env : Env) (settings : Settings) (n : ℕ) where
  open env use {World}

  abbrev Logged : Loop (Recorder World) → Type 0
  Logged l = IsLogged n settings.reconcile_cooldown l.result l.cooldown_store l.world.sent

  settle-Logged :
      (command : ReconcileCommand) (t : Time) (reply : Result String ReconcileAccepted)
      (log : Map Time) (l : Loop (Recorder World))
      → IsLogged n settings.reconcile_cooldown l.result l.cooldown_store log
      → (can_send l.cooldown_store
          (build_key command.component command.fqdn)
          (utc t)
          settings.reconcile_cooldown).0
        ≡ true
      → l.world.sent ≡ noted command t reply log
      → Logged
          (settle (recorded env) command (build_key command.component command.fqdn) (utc t) reply l)
  unfolding settle add_error count_sent
  settle-Logged command t (err e) log l i h same = rw same (recount l.result _ i refl)
  settle-Logged command t (ok accepted) log l i h same = rw same (record {
    known = mark_sent-IsRecorded settings.reconcile_cooldown l.cooldown_store log _ t i.known h;
    counted = let e = i.counted in omega arith;
  })

  send_if-Logged :
      (allowed : Bool) (command : ReconcileCommand) (t : Time) (l : Loop (Recorder World))
      → Logged l
      → (can_send l.cooldown_store
          (build_key command.component command.fqdn)
          (utc t)
          settings.reconcile_cooldown).0
        ≡ allowed
      → l.world.latest ≡ t
      → Logged (
          send_if
            (recorded env)
            allowed
            command
            (build_key command.component command.fqdn)
            (utc t)
            l)
  unfolding send_if send since count_suppressed
  send_if-Logged true command t l i h now =
      let reply = (env.send_reconcile command (env.now (env.now l.world.world).1).1).0 in
      settle-Logged command t reply l.world.sent _ i h
        (ap (λ (u : Time). noted command u reply l.world.sent) now)
  send_if-Logged false command t l i h now = recount l.result _ i refl

  act-Logged :
      (component : Component) (command : Option ReconcileCommand) (l : Loop (Recorder World))
      → Logged l
      → Logged (act (recorded env) settings component command l)
  unfolding act dispatch add_error
  act-Logged component none l i = recount l.result _ i refl
  act-Logged component (some command) l i =
      send_if-Logged _ command (env.now l.world.world).0 _ i refl refl

  judge-Logged :
      (component : Component) (desired : DesiredHost) (d : DetectorResult) (skipped : Bool)
      (l : Loop (Recorder World))
      → Logged l
      → Logged (judge (recorded env) settings component desired d skipped l).1
  unfolding judge count_drift
  judge-Logged component desired d skipped l i = if_both P (not d.applicable) _ _ i (
      if_both P d.missing_actual_data _ _
        (recount l.result _ i (note_missing_data-sent component desired skipped d l.result))
        (if_both P (not d.drift) _ _ i
          (act-Logged component d.reconcile_command _ (recount l.result _ i refl))))
    where
      P : Bool × Loop (Recorder World) → Type 0
      P s = Logged s.1

  check_found-Logged :
      (desired : DesiredHost) (actual : ActualHost) (component : Component)
      (found : Option Detector) (skipped : Bool) (l : Loop (Recorder World))
      → Logged l
      → Logged (check_found (recorded env) settings desired actual component found skipped l).1
  unfolding check_found add_error
  check_found-Logged desired actual component none skipped l i = recount l.result _ i refl
  check_found-Logged desired actual component (some detector) skipped l i =
      judge-Logged component desired _ skipped l i

  check_components-Logged :
      (desired : DesiredHost) (actual : ActualHost) (components : List Component) (skipped : Bool)
      (l : Loop (Recorder World))
      → Logged l
      → Logged (check_components (recorded env) settings desired actual components skipped l).1
  unfolding check_components
  check_components-Logged desired actual [] skipped l i = i
  check_components-Logged desired actual (component ∷ rest) skipped l i =
      check_components-Logged desired actual rest _ _
        (check_found-Logged desired actual component _ skipped l i)

  check_host-Logged :
      (desired : DesiredHost) (found : Option ActualHost) (l : Loop (Recorder World))
      → Logged l
      → Logged (check_host (recorded env) settings desired found l)
  unfolding check_host note_missing_host add_warning mark_partial count_compared
  check_host-Logged desired none l i = recount l.result _ i refl
  check_host-Logged desired (some actual) l i =
      check_components-Logged desired actual settings.enabled_components false _
        (recount l.result _ i refl)

  check_hosts-Logged :
      (ix : Index) (hosts : List DesiredHost) (l : Loop (Recorder World))
      → Logged l
      → Logged (check_hosts (recorded env) settings ix hosts l)
  unfolding check_hosts
  check_hosts-Logged ix [] l i = i
  check_hosts-Logged ix (desired ∷ rest) l i =
      check_hosts-Logged ix rest _ (check_host-Logged desired (lookup_actual_host desired ix) l i)

  -- What a cycle leaves: its result, the store and the log.
  abbrev Left : DetectionCycleResult × Option FetchError × Cooldown.Store × Recorder World → Type 0
  Left (r, error, store, w) = IsLogged n settings.reconcile_cooldown r store w.sent

  after_desired-Logged :
      (actual : ActualState) (reply : Result String DesiredState) (r : DetectionCycleResult)
      (store : Cooldown.Store) (w : Recorder World)
      → IsLogged n settings.reconcile_cooldown r store w.sent
      → Left (after_desired (recorded env) settings actual reply r store w)
  unfolding compare_states fetch_failed finish_result conclude since add_error
  after_desired-Logged actual (err e) r store w i = recount r _ i refl
  after_desired-Logged actual (ok desired) r store w i =
      recount _ _
        (check_hosts-Logged (index_actual_hosts actual.hosts) desired.hosts _
          (recount r _ i (prepare-sent actual desired r)))
        refl

  after_actual-Logged :
      (reply : Result String ActualState) (r : DetectionCycleResult) (store : Cooldown.Store)
      (w : Recorder World)
      → IsLogged n settings.reconcile_cooldown r store w.sent
      → Left (after_actual (recorded env) settings reply r store w)
  unfolding fetch_failed finish_result since add_error
  after_actual-Logged (err e) r store w i = recount r _ i refl
  after_actual-Logged (ok actual) r store w i =
      after_desired-Logged actual _ _ store _ (recount r _ i refl)

-- The requests of a cycle that the reconciler accepts are logged by key with the time that the cycle decides by.
-- If the log of the requests before the cycle is spaced (between two requests of one key the cooldown is over by the
-- wall clock, unless it is not positive) and the store has the last one of every key, then the same
-- holds after the cycle, and the log has grown by as many requests as the result counts as sent.
pub run_cycle-IsRecorded :
    (env : Env) (settings : Settings) (trigger : String) (store : Cooldown.Store)
    (w : Recorder env.World)
    → IsRecorded settings.reconcile_cooldown store w.sent
    → let (r, error, store', w') = run_cycle (recorded env) settings trigger store w in
      IsRecorded settings.reconcile_cooldown store' w'.sent
      × (length w'.sent ≡ length w.sent + r.stats.reconcile_sent)
unfolding run_cycle start_result since
run_cycle-IsRecorded env settings trigger store w known =
    let done =
      after_actual-Logged env settings (length w.sent) _ _ store _
        (record { known = known; counted = omega arith }) in
    (done.known, done.counted)
