-- ===== src/Drift/Registry/Laws.antt =====
-- Which detector a component has.
use infrastructure_managemen.Common.{
  ◌≡◌, refl, ap, ◌∙◌, Option, none, some, List, [], ◌∷◌, ◌==◌, if◌then◌else◌,
}
use infrastructure_managemen.Common.Maps.{Map, lookup, lookup-insert}
use infrastructure_managemen.Drift.Domain.{Component}
use infrastructure_managemen.Drift.Detectors.{Detector}
use infrastructure_managemen.Drift.Registry.{register, new_registry, get}

-- The last detector of the list for a component, and else a given one.
unfoldable pub last_for : Component → List Detector → Option Detector → Option Detector
last_for c [] default = default
last_for c (d ∷ ds) default = last_for c ds (if d.component == c then some d else default)

lookup-register :
    (c : Component) (ds : List Detector) (m : Map Detector)
    → lookup c (register m ds) ≡ last_for c ds (lookup c m)
unfolding register last_for
lookup-register c [] m = refl
lookup-register c (d ∷ ds) m =
    lookup-register c ds _ ∙ ap (last_for c ds) (lookup-insert d.component c d m)

-- A new registry has for each component the last detector of its list that names it, and none if no
-- detector does.
pub get-new_registry :
    (ds : List Detector) (c : Component) → get (new_registry ds) c ≡ last_for c ds none
unfolding get new_registry lookup
get-new_registry ds c = lookup-register c ds []
