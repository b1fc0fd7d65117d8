-- ===== src/Drift/Detection/Service/Laws.antt =====
-- What RunCycle leaves in the service.
use infrastructure_managemen.Common.{
  ℕ, ◌+◌, length, String, ◌≡◌, refl, ap, ap₂, sym, ◌∙◌, ◌||◌, Bool, true, false, Option, none, some,
  List, [], ◌∷◌, arith, if◌then◌else◌,
}
use infrastructure_managemen.Drift.Domain.{DetectionCycleResult, clone, clone_texts}
use infrastructure_managemen.Drift.Detection.Report.{Env, Settings, FetchError}
use infrastructure_managemen.Drift.Detection.Cycle.{run_cycle}
use infrastructure_managemen.Drift.Detection.Recorder.{Recorder, recorded, IsRecorded}
use infrastructure_managemen.Drift.Detection.Cycle.Spacing.{run_cycle-IsRecorded}
use infrastructure_managemen.Drift.Detection.Service.{
  Service, begin_cycle, finish_cycle, persist_result, is_ready, last_cycle_result, Outcome,
  no_error, outcome_error, run, run_all,
}

clone_texts-eq : (ss : List String) → clone_texts ss ≡ ss
unfolding clone_texts
clone_texts-eq [] = refl
clone_texts-eq (s ∷ ss) = ap (◌∷◌ s) (clone_texts-eq ss)

-- A cloned result has every field of the original.
pub clone-eq : (r : DetectionCycleResult) → clone r ≡ r
unfolding clone
clone-eq r =
    ap₂ (λ (ws es : List String). record r { warnings = ws; error_messages = es })
      (clone_texts-eq r.warnings) (clone_texts-eq r.error_messages)

abbrev succeeded : Outcome → Bool
succeeded o = elim o.error [ none ↦ true | some e ↦ false ]

abbrev pub any_succeeded : List Outcome → Bool
any_succeeded [] = false
any_succeeded (o ∷ os) = succeeded o || any_succeeded os

ready_cases :
    (e : Option FetchError) (b : Bool)
    → (if no_error e then true else b)
      ≡ (b || succeeded (record { result = none; error = outcome_error e }))
ready_cases none true = refl
ready_cases none false = refl
ready_cases (some e) true = refl
ready_cases (some e) false = refl

or-false : (b : Bool) → (b || false) ≡ b
or-false true = refl
or-false false = refl

module _ (env : Env) (settings : Settings) (trigger : String) (s : Service) (w : env.World) where
  -- If no cycle runs, RunCycle returns the cycle's result, which is then also the last result; the
  -- store of the cycle is kept, and the service is idle again.
  pub run_idle :
      s.running ≡ false
      → (last_cycle_result (run env settings trigger s w).1
          ≡ some (run_cycle env settings trigger s.cooldown_store w).0)
        × ((run env settings trigger s w).1.running ≡ false)
        × ((run env settings trigger s w).1.cooldown_store
            ≡ (run_cycle env settings trigger s.cooldown_store w).2)
        × ((run env settings trigger s w).0.result
            ≡ some (run_cycle env settings trigger s.cooldown_store w).0)
  unfolding run begin_cycle persist_result finish_cycle last_cycle_result
  run_idle h = rw h (ap some (clone-eq _ ∙ clone-eq _), refl, refl, refl)

  -- The service is ready after a run if it was, or if the run has no error.
  pub run-ready :
      s.running ≡ false
      → is_ready (run env settings trigger s w).1
        ≡ (is_ready s || succeeded (run env settings trigger s w).0)
  unfolding run begin_cycle persist_result finish_cycle is_ready
  run-ready h = rw h (ready_cases (run_cycle env settings trigger s.cooldown_store w).1 s.ready)

  -- A run of an idle service whose cycle has no error leaves it ready.
  pub ready-run :
      s.running ≡ false
      → (run_cycle env settings trigger s.cooldown_store w).1 ≡ none
      → is_ready (run env settings trigger s w).1 ≡ true
  unfolding run begin_cycle persist_result finish_cycle is_ready
  ready-run idle done = rw (idle, done) refl

module _ (env : Env) (settings : Settings) where
  -- From an idle service, after any calls of RunCycle one after the other, the service is idle,
  -- and it is ready exactly if it was ready before or one of the calls returned no error.
  pub run_all-ready :
      (triggers : List String) (s : Service) (w : env.World)
      → s.running ≡ false
      → ((run_all env settings triggers s w).1.running ≡ false)
        × (is_ready (run_all env settings triggers s w).1
            ≡ (is_ready s || any_succeeded (run_all env settings triggers s w).0))
  unfolding run_all
  run_all-ready [] s w h = (h, sym (or-false (is_ready s)))
  run_all-ready (trigger ∷ triggers) s w h =
      let (outcome, s₁, w₁) = run env settings trigger s w in
      let idle : s₁.running ≡ false = (run_idle env settings trigger s w h).1 in
      let (quiet, later) = run_all-ready triggers s₁ w₁ idle in
      (quiet, ground (arith, later, run-ready env settings trigger s w h))

  -- The requests that the results of the calls count as sent.
  abbrev pub sent_by : Outcome → ℕ
  sent_by o = elim o.result [ none ↦ 0 | some r ↦ r.stats.reconcile_sent ]

  abbrev pub all_sent_by : List Outcome → ℕ
  all_sent_by [] = 0
  all_sent_by (o ∷ os) = sent_by o + all_sent_by os

  run-IsRecorded :
      (trigger : String) (s : Service) (w : Recorder env.World)
      → s.running ≡ false
      → IsRecorded settings.reconcile_cooldown s.cooldown_store w.sent
      → let (outcome, s', w') = run (recorded env) settings trigger s w in
        IsRecorded settings.reconcile_cooldown s'.cooldown_store w'.sent
        × (length w'.sent ≡ length w.sent + sent_by outcome)
  unfolding run begin_cycle persist_result finish_cycle
  run-IsRecorded trigger s w idle known =
      rw idle (run_cycle-IsRecorded env settings trigger s.cooldown_store w known)

  -- The requests that the reconciler accepts are logged by key with the time that the cycle decides by. From an idle
  -- service, whose store has the last logged request of every key, and a spaced log (between two requests of one key
  -- the cooldown is over by the wall clock, unless it is not positive), after any calls of RunCycle one after the
  -- other the log is spaced, the store has the last request of every key, and the log has grown by as many
  -- requests as the results of the calls count as sent.
  pub run_all-IsRecorded :
      (triggers : List String) (s : Service) (w : Recorder env.World)
      → s.running ≡ false
      → IsRecorded settings.reconcile_cooldown s.cooldown_store w.sent
      → let (outcomes, s', w') = run_all (recorded env) settings triggers s w in
        IsRecorded settings.reconcile_cooldown s'.cooldown_store w'.sent
        × (length w'.sent ≡ length w.sent + all_sent_by outcomes)
  unfolding run_all
  run_all-IsRecorded [] s w idle known = (known, omega arith)
  run_all-IsRecorded (trigger ∷ triggers) s w idle known =
      let (outcome, s₁, w₁) = run (recorded env) settings trigger s w in
      let (after, grown) = run-IsRecorded trigger s w idle known in
      let idle₁ : s₁.running ≡ false = (run_idle (recorded env) settings trigger s w idle).1 in
      let (final, more) = run_all-IsRecorded triggers s₁ w₁ idle₁ after in (final, omega arith)
