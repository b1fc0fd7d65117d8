-- ===== src/Drift/App/Tests.antt =====
-- A service whose network does not answer.
use infrastructure_managemen.Common.{ℕ, ◌+◌, none, [], ◌∷◌, ok, err}
use infrastructure_managemen.Common.Json.{mismatch}
use infrastructure_managemen.Drift.Clients.Retry.{no_response}
use infrastructure_managemen.Drift.Config.Tests.{read_config}
use infrastructure_managemen.Drift.Tests.{at_time}
use infrastructure_managemen.Drift.App.{Outside, run_service}
use infrastructure_managemen.Drift.App.Laws.{IsWatching, triggers_of, run_service-IsWatching}

abbrev outside : Outside
outside = record {
  World = ℕ;
  http = record {
    get = λ url w. (no_response "no route to host", w + 1);
    post = λ url body w. (no_response "no route to host", w + 1);
    wait = λ delay w. (none, w + 1);
  };
  now = λ w. (at_time w, w + 1);
  times = record { print = λ t. "now"; parse = λ s. ok (at_time 0) };
  documents = record { marshal = λ d. ok ""; unmarshal = λ s. err mismatch };
  error_text = λ e. "no answer";
}

run_service-IsWatching_example :
    IsWatching outside read_config
      ("cadvisor" ∷ [])
      (triggers_of outside read_config ("cadvisor" ∷ []) 2)
      0
      (run_service outside read_config ("cadvisor" ∷ []) 2 0).0
run_service-IsWatching_example = run_service-IsWatching outside read_config ("cadvisor" ∷ []) 2 0
