-- ===== src/Drift/Detectors/Laws.antt =====
-- When the detectors report a drift, and what they then ask for.
use infrastructure_managemen.Common.{
  ◌↔◌, String, ◌≡◌, refl, true, false, Option, none, some, arith, not, ◌&&◌, if_both,
}
use infrastructure_managemen.Common.Maps.{Map}
use infrastructure_managemen.Common.Text.{trim_space}
use infrastructure_managemen.Common.Text.Laws.{trim_space_idem}
use infrastructure_managemen.Drift.Domain.{
  Component, node_exporter, cadvisor, DesiredWorkload, DesiredHost, desired_workload, ActualHost,
  has_workload, is_source_healthy, Parameter, DetectorResult, ReconcileCommand,
}
use infrastructure_managemen.Drift.Detectors.Presence.{
  IsDemanded, IsObserved, IsPresent, wants, wants_iff, is_source_healthy_iff, has_workload_iff,
  both_iff, not_iff,
}
use infrastructure_managemen.Drift.Detectors.{
  drifted, resolve_target_fqdn, is_wanted, detect_cadvisor, detect_cadvisor_found,
  detect_node_exporter_found, detect_node_exporter, workload_source_cadvisor,
}

-- What the cycle relies on in a detector's result.
pub record IsSound (component : Component) (d : DetectorResult) : Type 0 where
  pub named : d.component ≡ component
  pub drift_applies : d.drift ≡ true → (d.applicable ≡ true) × (d.missing_actual_data ≡ false)
  pub missing_applies : d.missing_actual_data ≡ true → d.applicable ≡ true
  pub commanded :
      d.drift ≡ true
      → (command : ReconcileCommand) × (d.reconcile_command ≡ some command)
        × (command.component ≡ component)
        × (trim_space command.fqdn ≡ command.fqdn)
  pub quiet : d.drift ≡ false → d.reconcile_command ≡ none

trim_space-resolve_target_fqdn :
    (desired : DesiredHost) (actual : ActualHost)
    → trim_space (resolve_target_fqdn desired actual) ≡ resolve_target_fqdn desired actual
unfolding resolve_target_fqdn
trim_space-resolve_target_fqdn desired actual =
    ground (arith, trim_space_idem desired.fqdn, trim_space_idem actual.fqdn)

drifted-IsSound :
    (component : Component) (cycle_id : String) (desired : DesiredHost) (actual : ActualHost)
    (params : Map Parameter) (reason skip : String)
    → IsSound component (drifted component cycle_id desired actual params reason skip)
unfolding drifted
drifted-IsSound component cycle_id desired actual params reason skip = record {
  named = refl;
  drift_applies = λ h. (refl, refl);
  missing_applies = λ h. refl;
  commanded = λ h. (_, refl, refl, trim_space-resolve_target_fqdn desired actual);
  quiet = λ h. cc;
}

cadvisor_drift-eq :
    (cycle_id : String) (desired : DesiredHost) (actual : ActualHost)
    → (detect_cadvisor cycle_id desired actual).drift ≡ (
        wants desired cadvisor
        && not (is_source_healthy actual workload_source_cadvisor && has_workload actual cadvisor))
unfolding detect_cadvisor drifted
cadvisor_drift-eq cycle_id desired actual = ground arith

node_exporter_missing-eq :
    (cycle_id : String) (desired : DesiredHost) (actual : ActualHost)
    → (detect_node_exporter cycle_id desired actual).missing_actual_data
      ≡ (wants desired node_exporter && not (is_source_healthy actual workload_source_cadvisor))
unfolding detect_node_exporter drifted
node_exporter_missing-eq cycle_id desired actual = ground arith

node_exporter_drift-eq :
    (cycle_id : String) (desired : DesiredHost) (actual : ActualHost)
    → (detect_node_exporter cycle_id desired actual).drift ≡ (
        wants desired node_exporter
        && (is_source_healthy actual workload_source_cadvisor
            && not (has_workload actual node_exporter)))
unfolding detect_node_exporter drifted
node_exporter_drift-eq cycle_id desired actual = ground arith

-- The cadvisor detector reports a drift exactly when the first workload of the desired host with that name is
-- enabled and in container mode, and not both of these hold: the actual host's cadvisor source is enabled and
-- reports ok, and the actual host lists a workload of that name.
pub drift-detect_cadvisor :
    (cycle_id : String) (desired : DesiredHost) (actual : ActualHost)
    → ((detect_cadvisor cycle_id desired actual).drift ≡ true) ↔ (
        IsDemanded desired cadvisor
        × (¬ (IsObserved actual workload_source_cadvisor × IsPresent actual cadvisor)))
drift-detect_cadvisor cycle_id desired actual = rw (cadvisor_drift-eq cycle_id desired actual) (
    both_iff _ _ (wants_iff desired cadvisor) (
      not_iff _ (
        both_iff _ _ (is_source_healthy_iff actual workload_source_cadvisor)
          (has_workload_iff actual cadvisor))))

-- The node_exporter detector reports missing data exactly when the first workload of the desired host with that
-- name is enabled and in container mode and the actual host's cadvisor source is not both enabled and ok, and a
-- drift exactly when such a workload is there, the source is enabled and ok, and the actual host lists
-- no workload of that name.
pub drift-detect_node_exporter :
    (cycle_id : String) (desired : DesiredHost) (actual : ActualHost)
    → (((detect_node_exporter cycle_id desired actual).missing_actual_data ≡ true)
        ↔ (IsDemanded desired node_exporter × (¬ IsObserved actual workload_source_cadvisor)))
      × (((detect_node_exporter cycle_id desired actual).drift ≡ true) ↔ (
          IsDemanded desired node_exporter
          × (IsObserved actual workload_source_cadvisor × (¬ IsPresent actual node_exporter))))
drift-detect_node_exporter cycle_id desired actual =
    let demanded = wants_iff desired node_exporter in
    let observed = is_source_healthy_iff actual workload_source_cadvisor in
    (
      rw (node_exporter_missing-eq cycle_id desired actual)
          (both_iff _ _ demanded (not_iff _ observed)),
      rw (node_exporter_drift-eq cycle_id desired actual) (
          both_iff _ _ demanded
            (both_iff _ _ observed (not_iff _ (has_workload_iff actual node_exporter)))),
    )

-- A result without drift and without command.
calm :
    (component : Component) (d : DetectorResult)
    → d.component ≡ component
    → d.drift ≡ false
    → d.reconcile_command ≡ none
    → (d.missing_actual_data ≡ true → d.applicable ≡ true)
    → IsSound component d
calm component d named still no_command applies = record {
  named = named;
  drift_applies = λ h. cc;
  missing_applies = applies;
  commanded = λ h. absurd (cc);
  quiet = λ h. no_command;
}

cadvisor_found-IsSound :
    (cycle_id : String) (desired : DesiredHost) (actual : ActualHost) (w : Option DesiredWorkload)
    → IsSound cadvisor (detect_cadvisor_found cycle_id desired actual w)
cadvisor_found-IsSound cycle_id desired actual none = calm _ _ refl refl refl (λ h. cc)
cadvisor_found-IsSound cycle_id desired actual (some w) =
    if_both (IsSound cadvisor) (not (is_wanted w)) _ _ (calm _ _ refl refl refl (λ h. cc)) (
      if_both (IsSound cadvisor) (not (is_source_healthy actual workload_source_cadvisor)) _ _
        (drifted-IsSound cadvisor cycle_id desired actual _ _ _)
        (if_both (IsSound cadvisor) (has_workload actual cadvisor) _ _
          (calm _ _ refl refl refl (λ h. refl))
          (drifted-IsSound cadvisor cycle_id desired actual _ _ _)))

node_exporter_found-IsSound :
    (cycle_id : String) (desired : DesiredHost) (actual : ActualHost) (w : Option DesiredWorkload)
    → IsSound node_exporter (detect_node_exporter_found cycle_id desired actual w)
node_exporter_found-IsSound cycle_id desired actual none = calm _ _ refl refl refl (λ h. cc)
node_exporter_found-IsSound cycle_id desired actual (some w) =
    if_both (IsSound node_exporter) (not (is_wanted w)) _ _ (calm _ _ refl refl refl (λ h. cc)) (
      if_both (IsSound node_exporter) (not (is_source_healthy actual workload_source_cadvisor)) _ _
        (calm _ _ refl refl refl (λ h. refl))
        (if_both (IsSound node_exporter) (has_workload actual node_exporter) _ _
          (calm _ _ refl refl refl (λ h. refl))
          (drifted-IsSound node_exporter cycle_id desired actual _ _ _)))

-- Both detectors name their component; a drift is applicable, never comes with missing data, and
-- carries a command for the component whose FQDN is trimmed; without a drift there is no command.
pub detect-IsSound :
    (cycle_id : String) (desired : DesiredHost) (actual : ActualHost)
    → IsSound cadvisor (detect_cadvisor cycle_id desired actual)
      × IsSound node_exporter (detect_node_exporter cycle_id desired actual)
unfolding detect_cadvisor detect_node_exporter
detect-IsSound cycle_id desired actual = (
  cadvisor_found-IsSound cycle_id desired actual (desired_workload desired cadvisor),
  node_exporter_found-IsSound cycle_id desired actual (desired_workload desired node_exporter),
)
