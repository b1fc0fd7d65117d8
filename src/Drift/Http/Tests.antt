-- ===== src/Drift/Http/Tests.antt =====
-- A request to a service after a cycle.
use infrastructure_managemen.Common.{◌≡◌, refl, ◌||◌, [], ◌∷◌, if◌then◌else◌}
use infrastructure_managemen.Common.Json.{Rfc3339}
use infrastructure_managemen.Common.{ok}
use infrastructure_managemen.Drift.Detection.Service.{run_all, is_ready}
use infrastructure_managemen.Drift.Detection.Service.Laws.{any_succeeded}
use infrastructure_managemen.Drift.Tests.{env, settings, service, at_time}
use infrastructure_managemen.Drift.Http.{readyz}
use infrastructure_managemen.Drift.Http.Laws.{readyz-run_all}

abbrev times : Rfc3339
times = record { print = λ t. "now"; parse = λ s. ok (at_time 0) }

readyz-run_all_example :
    (readyz times
      (run_all env settings ("startup" ∷ []) service 1).1
      (run_all env settings ("startup" ∷ []) service 1).1).status
    ≡ (if is_ready service || any_succeeded (run_all env settings ("startup" ∷ []) service 1).0
        then 200
        else 503)
readyz-run_all_example = readyz-run_all times env settings service ("startup" ∷ []) 1 refl
