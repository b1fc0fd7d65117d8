-- ===== src/Drift/Detection/Service/Recorded.antt =====
-- The service in a recorded environment.
use infrastructure_managemen.Common.{
  String, ◌≡◌, refl, ap, ◌∙◌, true, Option, some, List, [], ◌∷◌, Bool-cases, inl, inr,
}
use infrastructure_managemen.Drift.Cooldown
use infrastructure_managemen.Drift.Domain.{DetectionCycleResult}
use infrastructure_managemen.Drift.Detection.Report.{Env, Settings, FetchError}
use infrastructure_managemen.Drift.Detection.Recorder.{Recorder, recorded}
use infrastructure_managemen.Drift.Detection.Recorder.Laws.{run_cycle-forget}
use infrastructure_managemen.Drift.Detection.Service.{
  Service, Outcome, begin_cycle, finish_cycle, persist_result, no_error, outcome_error, run,
  run_all,
}

module _ (env : Env) (settings : Settings) where
  open env use {World}

  -- What a run makes of its cycle.
  abbrev finished :
      Service
      → DetectionCycleResult × Option FetchError × Cooldown.Store × World
      → Outcome × Service × World
  finished s (result, error, store, w) = (
    record { result = some result; error = outcome_error error },
    finish_cycle (
        persist_result result (no_error error)
          (record s { running = true; cooldown_store = store })),
    w,
  )

  run-forget :
      (trigger : String) (s : Service) (w : Recorder World)
      → let (outcome, s', w') = run (recorded env) settings trigger s w in
        ◌≡◌ {A = Outcome × Service × World}
          (outcome, s', w'.world)
          (run env settings trigger s w.world)
  unfolding run begin_cycle
  run-forget trigger s w = elim (Bool-cases s.running) [
    | inl e ↦ rw e refl
    | inr e ↦ rw e (ap (finished s) (run_cycle-forget env settings trigger s.cooldown_store w))
  ]

  -- Calls of RunCycle in a recorded environment return what they return in the environment, and leave the
  -- same service.
  pub run_all-forget :
      (triggers : List String) (s : Service) (w : Recorder World)
      → let (outcomes, s', w') = run_all (recorded env) settings triggers s w in
        ◌≡◌ {A = List Outcome × Service × World}
          (outcomes, s', w'.world)
          (run_all env settings triggers s w.world)
  unfolding run_all
  run_all-forget [] s w = refl
  run_all-forget (trigger ∷ triggers) s w =
      let (outcome, s₁, w₁) = run (recorded env) settings trigger s w in
      let rest = run_all-forget triggers s₁ w₁ in
      ap (λ (p : List Outcome × Service × World). (outcome ∷ p.0, p.1, p.2)) rest
      ∙ ap
          (λ (q : Outcome × Service × World).
            let (os, s₂, w₂) = run_all env settings triggers q.1 q.2 in (q.0 ∷ os, s₂, w₂))
          (run-forget trigger s w)
