-- ===== src/Drift/App/Laws.antt =====
-- The life of the service, from its start on.
use infrastructure_managemen.Common.{
  ap, subst, ℕ, zero, suc, String, ◌≡◌, refl, false, List, [], ◌∷◌, if◌then◌else◌, inl, inr,
  Bool-cases,
}
use infrastructure_managemen.Common.Int.{pos, leb_ℤ}
use infrastructure_managemen.Common.Clock.{Time, zero_time}
use infrastructure_managemen.Common.Maps.{Map}
use infrastructure_managemen.Drift.Detection.Recorder.{Recorder, recorded, AreSpaced, IsRecorded}
use infrastructure_managemen.Drift.Detection.Service.Recorded.{run_all-forget}
use infrastructure_managemen.Drift.Config.{Config}
use infrastructure_managemen.Drift.Cooldown
use infrastructure_managemen.Drift.Domain.{Component}
use infrastructure_managemen.Drift.Detection.Service.{
  Service, Outcome, new_service, is_ready, run_all,
}
use infrastructure_managemen.Drift.Detection.Service.Laws.{
  run_all-ready, any_succeeded, run_all-IsRecorded,
}
use infrastructure_managemen.Drift.App.{
  Outside, clients_env, settings_of, run_logged, run_ticks, run_scheduler, run_service,
}

abbrev repeated : ℕ → List String
repeated zero = []
repeated (suc n) = "scheduler" ∷ repeated n

module _ (outside : Outside) (cfg : Config) (components : List Component) where
  open outside use {World}

  -- What the runs of a list of triggers leave.
  abbrev left_by : List String → Service × World → Service × World
  unfolding clients_env
  left_by triggers (s, w) =
      let (outcomes, s', w') =
        run_all (clients_env outside cfg) (settings_of outside cfg components) triggers s w in
      (s', w')

  run_ticks-left_by :
      (ticks : ℕ) (state : Service × World)
      → run_ticks outside cfg components ticks state ≡ left_by (repeated ticks) state
  unfolding run_ticks run_logged run_all left_by
  run_ticks-left_by zero state = refl
  run_ticks-left_by (suc ticks) (s, w) = run_ticks-left_by ticks _

  -- What the runs of a list of triggers return, one after the other on a new service.
  abbrev pub outcomes_of : List String → World → List Outcome
  unfolding clients_env
  outcomes_of triggers w =
      (run_all (clients_env outside cfg) (settings_of outside cfg components) triggers
        (new_service Cooldown.new_store) w).0

  -- Nothing is logged yet.
  abbrev pub unlogged : World → Recorder World
  unlogged w = record {
    world = w;
    latest = zero_time;
    before = zero_time;
    decided = zero_time;
    sent = [];
  }

  -- The requests that the reconciler accepts during these runs, the latest first.
  abbrev pub requests_of : List String → World → Map Time
  unfolding clients_env
  requests_of triggers w =
      (run_all (recorded (clients_env outside cfg)) (settings_of outside cfg components) triggers
        (new_service Cooldown.new_store) (unlogged w)).2.sent

  -- What the runs of the triggers leave: idle, ready exactly if one of them had no error, and with the requests
  -- that were accepted.
  pub record IsWatching (triggers : List String) (w : World) (s : Service) : Type 0 where
    pub idle : s.running ≡ false
    pub ready : is_ready s ≡ any_succeeded (outcomes_of triggers w)
    pub requested :
        IsRecorded cfg.anti_spam.reconcile_cooldown s.cooldown_store (requests_of triggers w)

  left_by-IsWatching :
      (triggers : List String) (w : World)
      → IsWatching triggers w (left_by triggers (new_service Cooldown.new_store, w)).0
  unfolding settings_of left_by clients_env is_ready AreSpaced
  left_by-IsWatching triggers w =
      let env = clients_env outside cfg in
      let settings = settings_of outside cfg components in
      let s = new_service Cooldown.new_store in
      let (idle, ready) = run_all-ready env settings triggers s w refl in
      let (known, counted) =
        run_all-IsRecorded env settings triggers s (unlogged w) refl
          (record { kept = λ key. refl; spaced = tt }) in
      record {
        idle = idle;
        ready = ready;
        requested =
            subst
              (λ (t : Service).
                IsRecorded cfg.anti_spam.reconcile_cooldown t.cooldown_store
                  (requests_of triggers w))
              (ap (λ p. p.1) (run_all-forget env settings triggers s (unlogged w))) known;
      }

  startup_lem :
      (triggers : List String) (w : World)
      → left_by triggers
          (run_logged outside cfg components "startup" (new_service Cooldown.new_store, w))
        ≡ left_by ("startup" ∷ triggers) (new_service Cooldown.new_store, w)
  unfolding run_logged run_all left_by
  startup_lem triggers w = refl

  started-IsWatching :
      (ticks : ℕ) (w : World)
      → IsWatching
          ("startup" ∷ repeated ticks)
          w
          (run_ticks outside cfg components ticks
            (run_logged outside cfg components "startup" (new_service Cooldown.new_store, w))).0
  started-IsWatching ticks w =
      rw
        (
          run_ticks-left_by ticks
              (run_logged outside cfg components "startup" (new_service Cooldown.new_store, w)),
          startup_lem (repeated ticks) w,
        )
        (left_by-IsWatching ("startup" ∷ repeated ticks) w)

  -- The triggers of the cycles over so many ticks.
  abbrev pub triggers_of : ℕ → List String
  triggers_of ticks =
      "startup" ∷ repeated (if leb_ℤ cfg.detection.interval (pos 0) then 0 else ticks)

  -- Whatever the network answers, after the cycle at the start and any number of the scheduler's ticks, the service
  -- is idle, and it is ready exactly if one of its cycles had no error: the one at the start, and one for each
  -- tick where the interval is positive. The requests that the reconciler accepted in these cycles, each with the time
  -- that its cycle decided by, are spaced (between two of one key the cooldown of the configuration is over by
  -- the wall clock, unless it is not positive), and the cooldown store has the last one of every key.
  pub run_service-IsWatching :
      (ticks : ℕ) (w : World)
      → IsWatching (triggers_of ticks) w (run_service outside cfg components ticks w).0
  unfolding run_service run_scheduler run_ticks
  run_service-IsWatching ticks w = elim (Bool-cases (leb_ℤ cfg.detection.interval (pos 0))) [
    | inl e ↦ rw e (started-IsWatching zero w)
    | inr e ↦ rw e (started-IsWatching ticks w)
  ]
