-- ===== src/Drift/Detectors.antt =====
-- DriftDetectorSvc/internal/detectors: what a component lacks on a host.
pub mod Laws
pub mod Presence
mod Tests
use Prim.Native.String.{◌++◌}
use infrastructure_managemen.Common.{
  String, Bool, true, false, Option, none, some, [], ◌==◌, not, ◌&&◌, if◌then◌else◌,
}
use infrastructure_managemen.Common.Int.{ℤ}
use infrastructure_managemen.Common.Text.{trim_space, to_lower, equal_fold}
use infrastructure_managemen.Common.Maps.{Map, insert}
use infrastructure_managemen.Drift.Domain.{
  Component, node_exporter, cadvisor, DesiredWorkload, DesiredHost, desired_workload, ActualHost,
  has_workload, is_source_healthy, Parameter, text, number, DetectorResult,
}

-- type Detector interface
pub record Detector : Type 0 where
  pub component : Component
  pub detect : String → DesiredHost → ActualHost → DetectorResult

unfoldable pub build_correlation_id : String → Component → String → String
build_correlation_id cycle_id component fqdn =
    cycle_id ++ (":" ++ (component ++ (":" ++ to_lower (trim_space fqdn))))

unfoldable pub resolve_target_fqdn : DesiredHost → ActualHost → String
resolve_target_fqdn desired actual =
    if trim_space desired.fqdn == "" then trim_space actual.fqdn else trim_space desired.fqdn

-- The local `hostID` of both `Detect` methods.
unfoldable pub resolve_host_id : DesiredHost → ActualHost → String
resolve_host_id desired actual =
    if trim_space desired.host_id == ""
    then trim_space actual.host_id
    else trim_space desired.host_id

abbrev put_port : String → Option ℤ → Map Parameter → Map Parameter
put_port key none m = m
put_port key (some p) m = insert key (number p) m

-- The local `parameters` of both `Detect` methods, under the method's two keys.
unfoldable pub parameters : String → String → DesiredWorkload → Map Parameter
parameters image_key port_key w =
    let with_image =
      if trim_space w.image == "" then [] else insert image_key (text (trim_space w.image)) [] in
    put_port port_key w.port with_image

-- The `DetectorResult` that both methods start from.
abbrev pub blank : Component → DetectorResult
blank component = record {
  component = component;
  applicable = false;
  missing_actual_data = false;
  missing_actual_host = false;
  drift = false;
  skip_reason = "";
  finding = none;
  reconcile_command = none;
}

-- The finding and the command of a drift, on a result that is applicable.
unfoldable pub drifted :
    Component → String → DesiredHost → ActualHost → Map Parameter → String → String → DetectorResult
drifted component cycle_id desired actual params reason skip =
    let target = resolve_target_fqdn desired actual in
    let host_id = resolve_host_id desired actual in
    record {
      component = component;
      applicable = true;
      missing_actual_data = false;
      missing_actual_host = false;
      drift = true;
      skip_reason = skip;
      finding =
          some
            (record { component = component; host_id = host_id; fqdn = target; reason = reason });
      reconcile_command = some (record {
        host_id = host_id;
        fqdn = target;
        component = component;
        correlation_id = build_correlation_id cycle_id component target;
        parameters = params;
      });
    }

abbrev pub missing_reason : String
missing_reason = "component is required in desired state but missing in actual state"

abbrev pub workload_source_cadvisor : String
workload_source_cadvisor = "cadvisor"

-- The early returns at the head of both `Detect` methods.
unfoldable pub is_wanted : DesiredWorkload → Bool
is_wanted w = w.enabled && equal_fold (trim_space w.deployment_mode) "container"

abbrev detect_cadvisor_found :
    String → DesiredHost → ActualHost → Option DesiredWorkload → DetectorResult
detect_cadvisor_found cycle_id desired actual none = blank cadvisor
detect_cadvisor_found cycle_id desired actual (some w) =
    let params = parameters "cadvisor_image" "cadvisor_port" w in
    if not (is_wanted w)
    then blank cadvisor
    else if not (is_source_healthy actual workload_source_cadvisor)
    then drifted cadvisor cycle_id desired actual params
        "cadvisor source is not healthy, bootstrap reconcile is required"
        "bootstrap reconcile requested for cadvisor"
    else if has_workload actual cadvisor
    then record (blank cadvisor) { applicable = true }
    else drifted cadvisor cycle_id desired actual params missing_reason
        "drift detected for cadvisor"

-- (*CadvisorDetector).Detect
unfoldable pub detect_cadvisor : String → DesiredHost → ActualHost → DetectorResult
detect_cadvisor cycle_id desired actual =
    detect_cadvisor_found cycle_id desired actual (desired_workload desired cadvisor)

abbrev detect_node_exporter_found :
    String → DesiredHost → ActualHost → Option DesiredWorkload → DetectorResult
detect_node_exporter_found cycle_id desired actual none = blank node_exporter
detect_node_exporter_found cycle_id desired actual (some w) =
    let params = parameters "node_exporter_image" "node_exporter_port" w in
    if not (is_wanted w)
    then blank node_exporter
    else if not (is_source_healthy actual workload_source_cadvisor)
    then record (blank node_exporter) {
      applicable = true;
      missing_actual_data = true;
      skip_reason = "cadvisor source data is not healthy";
    }
    else if has_workload actual node_exporter
    then record (blank node_exporter) { applicable = true }
    else drifted node_exporter cycle_id desired actual params missing_reason
        ("drift detected for " ++ node_exporter)

-- (*NodeExporterDetector).Detect
unfoldable pub detect_node_exporter : String → DesiredHost → ActualHost → DetectorResult
detect_node_exporter cycle_id desired actual =
    detect_node_exporter_found cycle_id desired actual (desired_workload desired node_exporter)

-- NewCadvisorDetector, NewNodeExporterDetector
abbrev pub cadvisor_detector : Detector
cadvisor_detector = record { component = cadvisor; detect = detect_cadvisor }

abbrev pub node_exporter_detector : Detector
node_exporter_detector = record { component = node_exporter; detect = detect_node_exporter }
