-- ===== src/Drift/Detection/Service.antt =====
-- The state of the detection service, and its methods: RunCycle, IsReady, LastCycleResult, beginCycle,
-- finishCycle and persistResult of DriftDetectorSvc/internal/service/detection/service.go.
pub mod Laws
pub mod Threads
pub mod Lock
pub mod Recorded
use infrastructure_managemen.Common.{
  String, Bool, true, false, Option, none, some, List, [], ◌∷◌, if◌then◌else◌,
}
use infrastructure_managemen.Drift.Domain.{DetectionCycleResult, clone}
use infrastructure_managemen.Drift.Cooldown
use infrastructure_managemen.Drift.Detection.Report.{Env, Settings, FetchError}
use infrastructure_managemen.Drift.Detection.Cycle.{run_cycle}

pub record Service : Type 0 where
  pub running : Bool
  pub ready : Bool
  pub last_result : Option DetectionCycleResult
  pub cooldown_store : Cooldown.Store

-- NewService; `last_result` is `some r` where Go has `hasResult` and `lastResult`.
abbrev pub new_service : Cooldown.Store → Service
new_service store = record {
  running = false;
  ready = false;
  last_result = none;
  cooldown_store = store;
}

unfoldable pub begin_cycle : Service → Bool × Service
begin_cycle s = if s.running then (false, s) else (true, record s { running = true })

unfoldable pub finish_cycle : Service → Service
finish_cycle s = record s { running = false }

unfoldable pub persist_result : DetectionCycleResult → Bool → Service → Service
persist_result result mark_ready s = record s {
  last_result = some (clone result);
  ready = if mark_ready then true else s.ready;
}

unfoldable pub is_ready : Service → Bool
is_ready s = s.ready

unfoldable pub last_cycle_result : Service → Option DetectionCycleResult
last_cycle_result s = elim s.last_result [ none ↦ none | some r ↦ some (clone r) ]

-- The errors that RunCycle returns.
pub data CycleError : Type 0 where
  cycle_already_running : CycleError
  fetch_failed : FetchError → CycleError

-- What RunCycle returns: the result and the error, which may both be there.
pub record Outcome : Type 0 where
  pub result : Option DetectionCycleResult
  pub error : Option CycleError

abbrev no_error : Option FetchError → Bool
no_error none = true
no_error (some e) = false

abbrev pub outcome_error : Option FetchError → Option CycleError
outcome_error none = none
outcome_error (some e) = some (fetch_failed e)

module _ (env : Env) (settings : Settings) where
  open env use {World}

  abbrev run_begun : String → Bool → Service → World → Outcome × Service × World
  run_begun trigger false s w = (record { result = none; error = some cycle_already_running }, s, w)
  run_begun trigger true s w =
      let (result, error, store, w') = run_cycle env settings trigger s.cooldown_store w in
      let persisted =
        persist_result result (no_error error) (record s { cooldown_store = store }) in
      (record { result = some result; error = outcome_error error }, finish_cycle persisted, w')

  -- (*Service).RunCycle, run by one caller without others in between
  unfoldable pub run : String → Service → World → Outcome × Service × World
  run trigger s w = let (begun, s') = begin_cycle s in run_begun trigger begun s' w

  -- Calls of RunCycle one after the other, each with its trigger, and what they return.
  unfoldable pub run_all : List String → Service → World → List Outcome × Service × World
  run_all [] s w = ([], s, w)
  run_all (trigger ∷ triggers) s w =
      let (outcome, s₁, w₁) = run trigger s w in
      let (outcomes, s₂, w₂) = run_all triggers s₁ w₁ in (outcome ∷ outcomes, s₂, w₂)
