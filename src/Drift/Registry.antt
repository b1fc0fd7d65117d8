-- ===== src/Drift/Registry.antt =====
-- DriftDetectorSvc/internal/detectors/registry.go: the detectors by component.
pub mod Laws
use infrastructure_managemen.Common.{Option, List, [], ◌∷◌, map}
use infrastructure_managemen.Common.Maps.{Map, lookup, insert}
use infrastructure_managemen.Common.Order.{sort_by, str_lt}
use infrastructure_managemen.Drift.Domain.{Component}
use infrastructure_managemen.Drift.Detectors.{Detector}

pub record Registry : Type 0 where
  pub detectors : Map Detector

unfoldable pub register : Map Detector → List Detector → Map Detector
register m [] = m
register m (d ∷ ds) = register (insert d.component d m) ds

-- NewRegistry
unfoldable pub new_registry : List Detector → Registry
new_registry items = record { detectors = register [] items }

-- (*Registry).Get
unfoldable pub get : Registry → Component → Option Detector
get r component = lookup component r.detectors

-- (*Registry).Components
unfoldable pub components : Registry → List Component
components r = sort_by str_lt (map (λ e. e.0) r.detectors)
