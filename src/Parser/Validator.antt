-- ===== src/Parser/Validator.antt =====
-- ParserSvc/internal/validator/validator.go; `some m` is the error with the message `m`.
pub mod Laws
use Prim.Native.String.{◌++◌ as concat}
use infrastructure_managemen.Common.{
  String, Bool, ◌&&◌, Option, none, some, List, [], ◌∷◌, ◌++◌, ◌==◌, if◌then◌else◌,
}
use infrastructure_managemen.Common.Text.{trim_space, equal_fold, join}
use infrastructure_managemen.Parser.Domain.{DesiredHost, DesiredWorkload}

-- errs = append(errs, message), under a condition
unfoldable pub require : Bool → String → List String → List String
require missing message errs = if missing then errs ++ message ∷ [] else errs

unfoldable pub is_blank : String → Bool
is_blank s = trim_space s == ""

unfoldable pub host_errors : DesiredHost → List String
host_errors host = require (is_blank host.purpose) "purpose is required" (
    require (is_blank host.managed_by) "managed_by is required" (
      require (is_blank host.env) "env is required" (
        require (is_blank host.fqdn) "fqdn is required"
          (require (is_blank host.host_id) "host_id is required" []))))

abbrev report : String → List String → Option String
report prefix [] = none
report prefix (e ∷ es) = some (concat prefix (join (e ∷ es) "; "))

-- ValidateHost
unfoldable pub validate_host : DesiredHost → Option String
validate_host host = report "" (host_errors host)

unfoldable pub workload_errors : DesiredWorkload → List String
workload_errors w =
    require (equal_fold (trim_space w.deployment_mode) "container" && is_blank w.image)
      "image is required when deployment_mode=container"
      (require (is_blank w.deployment_mode) "deployment_mode is required"
        (require (is_blank w.name) "workload name is required" []))

-- ValidateWorkload
unfoldable pub validate_workload : DesiredWorkload → Option String
validate_workload w = report "invalid workload: " (workload_errors w)
