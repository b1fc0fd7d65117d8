-- ===== src/Drift/Detection/Recorder/Laws.antt =====
-- A recorded environment changes nothing of what the service does.
use infrastructure_managemen.Common.{
  String, ◌≡◌, refl, ap, ◌∙◌, Bool, true, false, not, Option, none, some, List, [], ◌∷◌, Bool-cases,
  inl, inr, Result, ok, err,
}
use infrastructure_managemen.Common.Clock.{Time}
use infrastructure_managemen.Drift.Domain.{
  Component, DesiredHost, DesiredState, ActualHost, ActualState, ReconcileCommand,
  ReconcileAccepted, DetectorResult, DetectionCycleResult,
}
use infrastructure_managemen.Drift.Cooldown
use infrastructure_managemen.Drift.Detectors.{Detector}
use infrastructure_managemen.Drift.Detection.Hosts.{Index, index_actual_hosts, lookup_actual_host}
use infrastructure_managemen.Drift.Detection.Report.{Env, Settings, FetchError, Loop, prepare}
use infrastructure_managemen.Drift.Detection.Recorder.{Recorder, recorded}
use infrastructure_managemen.Drift.Detection.Cycle.{
  since, settle, send, send_if, dispatch, act, judge, check_found, check_components, check_host,
  check_hosts, compare_states, after_desired, after_actual, run_cycle, finish_result, conclude,
  fetch_failed, start_loop,
}

-- The loop's state without the log.
abbrev forget : {W : Type 0} → Loop (Recorder W) → Loop W
forget l = record {
  result = l.result;
  cooldown_store = l.cooldown_store;
  compare_timer = l.compare_timer;
  compare_duration = l.compare_duration;
  dispatch_duration = l.dispatch_duration;
  world = l.world.world;
}

abbrev forget_pair : {W : Type 0} → Bool × Loop (Recorder W) → Bool × Loop W
forget_pair (b, l) = (b, forget l)

module _ (env : Env) where
  open env use {World}

  settle-forget :
      (command : ReconcileCommand) (key : String) (t : Time)
      (reply : Result String ReconcileAccepted) (l : Loop (Recorder World))
      → forget (settle (recorded env) command key t reply l)
        ≡ settle env command key t reply (forget l)
  unfolding settle
  settle-forget command key t (err e) l = refl
  settle-forget command key t (ok accepted) l = refl

  send_if-forget :
      (allowed : Bool) (command : ReconcileCommand) (key : String) (t : Time)
      (l : Loop (Recorder World))
      → forget (send_if (recorded env) allowed command key t l)
        ≡ send_if env allowed command key t (forget l)
  unfolding send_if send since
  send_if-forget true command key t l = settle-forget command key t _ _
  send_if-forget false command key t l = refl

  module _ (settings : Settings) where
    act-forget :
        (component : Component) (command : Option ReconcileCommand) (l : Loop (Recorder World))
        → forget (act (recorded env) settings component command l)
          ≡ act env settings component command (forget l)
    unfolding act dispatch
    act-forget component none l = refl
    act-forget component (some command) l = send_if-forget _ command _ _ _

    judge-forget :
        (component : Component) (desired : DesiredHost) (d : DetectorResult) (skipped : Bool)
        (l : Loop (Recorder World))
        → forget_pair (judge (recorded env) settings component desired d skipped l)
          ≡ judge env settings component desired d skipped (forget l)
    unfolding judge
    judge-forget component desired d skipped l = elim (Bool-cases (not d.applicable)) [
      | inl e ↦ rw e refl
      | inr e ↦ elim (Bool-cases d.missing_actual_data) [
        | inl e₁ ↦ rw (e, e₁) refl
        | inr e₁ ↦ elim (Bool-cases (not d.drift)) [
          | inl e₂ ↦ rw (e, e₁, e₂) refl
          | inr e₂ ↦
              rw (e, e₁, e₂)
                (ap (λ (k : Loop World). (skipped, k)) (act-forget component d.reconcile_command _))
        ]
      ]
    ]

    check_found-forget :
        (desired : DesiredHost) (actual : ActualHost) (component : Component)
        (found : Option Detector) (skipped : Bool) (l : Loop (Recorder World))
        → forget_pair (check_found (recorded env) settings desired actual component found skipped l)
          ≡ check_found env settings desired actual component found skipped (forget l)
    unfolding check_found
    check_found-forget desired actual component none skipped l = refl
    check_found-forget desired actual component (some detector) skipped l =
        judge-forget component desired _ skipped l

    check_components-forget :
        (desired : DesiredHost) (actual : ActualHost) (components : List Component) (skipped : Bool)
        (l : Loop (Recorder World))
        → forget_pair (check_components (recorded env) settings desired actual components skipped l)
          ≡ check_components env settings desired actual components skipped (forget l)
    unfolding check_components
    check_components-forget desired actual [] skipped l = refl
    check_components-forget desired actual (component ∷ rest) skipped l =
        check_components-forget desired actual rest _ _
        ∙ ap (λ (s : Bool × Loop World). check_components env settings desired actual rest s.0 s.1)
            (check_found-forget desired actual component _ skipped l)

    check_host-forget :
        (desired : DesiredHost) (found : Option ActualHost) (l : Loop (Recorder World))
        → forget (check_host (recorded env) settings desired found l)
          ≡ check_host env settings desired found (forget l)
    unfolding check_host
    check_host-forget desired none l = refl
    check_host-forget desired (some actual) l =
        ap (λ s. s.1) (check_components-forget desired actual settings.enabled_components false _)

    check_hosts-forget :
        (ix : Index) (hosts : List DesiredHost) (l : Loop (Recorder World))
        → forget (check_hosts (recorded env) settings ix hosts l)
          ≡ check_hosts env settings ix hosts (forget l)
    unfolding check_hosts
    check_hosts-forget ix [] l = refl
    check_hosts-forget ix (desired ∷ rest) l =
        check_hosts-forget ix rest _
        ∙ ap (check_hosts env settings ix rest)
            (check_host-forget desired (lookup_actual_host desired ix) l)

    -- What a cycle leaves, without the log.
    abbrev pub forget_log :
        DetectionCycleResult × Option FetchError × Cooldown.Store × Recorder World
        → DetectionCycleResult × Option FetchError × Cooldown.Store × World
    forget_log (r, error, store, w) = (r, error, store, w.world)

    -- What `compare_states` makes of the loop's last state.
    abbrev concluded :
        Loop World → DetectionCycleResult × Option FetchError × Cooldown.Store × World
    concluded l = let (r, w) = conclude env l in (r, none, l.cooldown_store, w)

    after_desired-forget :
        (actual : ActualState) (reply : Result String DesiredState) (r : DetectionCycleResult)
        (store : Cooldown.Store) (w : Recorder World)
        → forget_log (after_desired (recorded env) settings actual reply r store w)
          ≡ after_desired env settings actual reply r store w.world
    unfolding compare_states fetch_failed finish_result conclude since
    after_desired-forget actual (err e) r store w = refl
    after_desired-forget actual (ok desired) r store w = ap concluded (
        check_hosts-forget (index_actual_hosts actual.hosts) desired.hosts (
          start_loop (recorded env) (prepare actual desired r) store (env.now w.world).0
            ((recorded env).now w).1))

    after_actual-forget :
        (reply : Result String ActualState) (r : DetectionCycleResult) (store : Cooldown.Store)
        (w : Recorder World)
        → forget_log (after_actual (recorded env) settings reply r store w)
          ≡ after_actual env settings reply r store w.world
    unfolding fetch_failed finish_result since
    after_actual-forget (err e) r store w = refl
    after_actual-forget (ok actual) r store w = after_desired-forget actual _ _ store _

    -- A cycle in a recorded environment is the cycle in the environment, with the log beside it.
    pub run_cycle-forget :
        (trigger : String) (store : Cooldown.Store) (w : Recorder World)
        → forget_log (run_cycle (recorded env) settings trigger store w)
          ≡ run_cycle env settings trigger store w.world
    unfolding run_cycle since
    run_cycle-forget trigger store w = after_actual-forget _ _ store _
