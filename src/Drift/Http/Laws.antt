-- ===== src/Drift/Http/Laws.antt =====
-- What the routes answer over the life of the service.
use infrastructure_managemen.Common.{
  String, ◌≡◌, refl, ◌||◌, Bool, true, false, List, if◌then◌else◌,
}
use infrastructure_managemen.Common.Json.{Rfc3339, Answer}
use infrastructure_managemen.Drift.Detection.Report.{Env, Settings}
use infrastructure_managemen.Drift.Detection.Service.{Service, is_ready, run_all}
use infrastructure_managemen.Drift.Detection.Service.Laws.{run_all-ready, any_succeeded}
use infrastructure_managemen.Drift.Http.{readyz}

by_ready :
    (b : Bool) (x y : Answer)
    → x.status ≡ 200
    → y.status ≡ 503
    → (if◌then◌else◌ {A = Answer} b x y).status ≡ (if b then 200 else 503)
by_ready true x y h k = h
by_ready false x y h k = k

-- After any calls of RunCycle one after the other on an idle service, the readiness route answers 200 exactly if
-- the service was ready before or one of the calls returned no error, and 503 otherwise.
pub readyz-run_all :
    (times : Rfc3339) (env : Env) (settings : Settings) (s : Service) (triggers : List String)
    (w : env.World)
    → s.running ≡ false
    → let (outcomes, s', w') = run_all env settings triggers s w in
      (readyz times s' s').status ≡ (if is_ready s || any_succeeded outcomes then 200 else 503)
unfolding readyz
readyz-run_all times env settings s triggers w idle =
    rw (run_all-ready env settings triggers s w idle).1
      (by_ready (is_ready s || any_succeeded (run_all env settings triggers s w).0) _ _ refl refl)
