-- ===== src/Drift/Detectors/Tests.antt =====
-- Both detectors on a host without their workloads.
use infrastructure_managemen.Common.{Bool, true, ◌↔◌, map, none, [], ◌∷◌, refl, ◌≡◌, false}
use infrastructure_managemen.Drift.Domain.{node_exporter, cadvisor}
use infrastructure_managemen.Drift.Detectors.{
  detect_cadvisor, detect_node_exporter, workload_source_cadvisor,
}
use infrastructure_managemen.Drift.Detectors.Presence.{IsDemanded, IsObserved, IsPresent}
use infrastructure_managemen.Common.Text.{trim_space, equal_fold, to_lower}
use infrastructure_managemen.Drift.Detectors.{is_wanted, drifted}
use infrastructure_managemen.Drift.Domain.{DesiredHost, desired_workload, find_workload}
use infrastructure_managemen.Drift.Detectors.Laws.{
  drift-detect_cadvisor, drift-detect_node_exporter,
}
use infrastructure_managemen.Drift.Tests.{desired_host, actual_host}

drift-detect_cadvisor_example : ((detect_cadvisor "7" desired_host actual_host).drift ≡ true) ↔ (
    IsDemanded desired_host cadvisor
    × (¬ (IsObserved actual_host workload_source_cadvisor × IsPresent actual_host cadvisor)))
drift-detect_cadvisor_example = drift-detect_cadvisor "7" desired_host actual_host

drift-detect_node_exporter_example :
    (((detect_node_exporter "7" desired_host actual_host).missing_actual_data ≡ true) ↔ (
      IsDemanded desired_host node_exporter × (¬ IsObserved actual_host workload_source_cadvisor)))
    × (((detect_node_exporter "7" desired_host actual_host).drift ≡ true) ↔ (
        IsDemanded desired_host node_exporter
        × (IsObserved actual_host workload_source_cadvisor
            × (¬ IsPresent actual_host node_exporter))))
drift-detect_node_exporter_example = drift-detect_node_exporter "7" desired_host actual_host

-- A disabled workload hides an enabled one of the same name behind it.
abbrev hidden_host : DesiredHost
hidden_host = record desired_host {
  workloads =
      map
        (λ (enabled : Bool). record {
          name = "cadvisor";
          enabled = enabled;
          deployment_mode = "container";
          image = "";
          version = none;
          port = none;
        })
        (false ∷ true ∷ []);
}

hidden : (detect_cadvisor "7" hidden_host actual_host).drift ≡ false
unfolding detect_cadvisor desired_workload find_workload trim_space equal_fold is_wanted to_lower
    drifted
hidden = refl
