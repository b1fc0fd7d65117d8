-- ===== src/Parser/Validator/Laws.antt =====
-- What the validator accepts.
use infrastructure_managemen.Common.{Bool-cases, ◌≡◌, ◌↔◌, true, false, none, arith}
use infrastructure_managemen.Common.Text.{trim_space, equal_fold}
use infrastructure_managemen.Parser.Domain.{DesiredHost, DesiredWorkload}
use infrastructure_managemen.Parser.Validator.{
  require, is_blank, host_errors, validate_host, workload_errors, validate_workload,
}

-- The five fields that a host must have are not blank.
pub record IsCompleteHost (h : DesiredHost) : Type 0 where
  pub host_id : is_blank h.host_id ≡ false
  pub fqdn : is_blank h.fqdn ≡ false
  pub env : is_blank h.env ≡ false
  pub managed_by : is_blank h.managed_by ≡ false
  pub purpose : is_blank h.purpose ≡ false

-- The name and the mode are not blank, and a container has an image.
pub record IsCompleteWorkload (w : DesiredWorkload) : Type 0 where
  pub name : is_blank w.name ≡ false
  pub deployment_mode : is_blank w.deployment_mode ≡ false
  pub image :
      equal_fold (trim_space w.deployment_mode) "container" ≡ true → is_blank w.image ≡ false

-- ValidateHost accepts exactly the hosts whose id, FQDN, environment, manager and purpose are not blank.
pub validate_host_iff : (h : DesiredHost) → (validate_host h ≡ none) ↔ IsCompleteHost h
unfolding validate_host host_errors require
validate_host_iff h = (
  λ e. record {
    host_id = ground arith;
    fqdn = ground arith;
    env = ground arith;
    managed_by = ground arith;
    purpose = ground arith;
  },
  λ c. ground arith,
)

-- ValidateWorkload accepts exactly the workloads whose name and mode are not blank and that have an image
-- if their mode is "container" up to surrounding space and case.
pub validate_workload_iff :
    (w : DesiredWorkload) → (validate_workload w ≡ none) ↔ IsCompleteWorkload w
unfolding validate_workload workload_errors require
validate_workload_iff w = (
  λ e. record { name = ground arith; deployment_mode = ground arith; image = λ h. ground arith },
  λ c. ground (arith, Bool-cases (equal_fold (trim_space w.deployment_mode) "container")),
)
