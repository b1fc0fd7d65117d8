-- ===== src/Parser/Domain/Clones.antt =====
-- A clone has the contents of its original.
use infrastructure_managemen.Common.{◌≡◌, refl, ap₂, Option, none, some, List, [], ◌∷◌, All}
use infrastructure_managemen.Common.Maps.{IsMap, copy-eq, copy-IsMap}
use infrastructure_managemen.Parser.Domain.{
  DesiredWorkload, DesiredHost, Snapshot, clone_pointer, clone_workload, clone_workloads,
  clone_host, clone_hosts, clone_state, clone_snapshot,
}

-- The labels have each key once, as Go's maps do.
abbrev pub HasMap : DesiredHost → Type 0
HasMap h = IsMap h.labels

clone_pointer-eq : {A : Type 0} (p : Option A) → clone_pointer p ≡ p
clone_pointer-eq none = refl
clone_pointer-eq (some x) = refl

clone_workloads-eq : (ws : List DesiredWorkload) → clone_workloads ws ≡ ws
unfolding clone_workloads clone_workload
clone_workloads-eq [] = refl
clone_workloads-eq (w ∷ ws) =
    cc (clone_pointer-eq w.version, clone_pointer-eq w.port, clone_workloads-eq ws)

pub clone_host-eq : (h : DesiredHost) → HasMap h → clone_host h ≡ h
unfolding clone_host
clone_host-eq h m = cc (copy-eq h.labels m, clone_workloads-eq h.workloads)

pub clone_hosts-eq : (hs : List DesiredHost) → All HasMap hs → clone_hosts hs ≡ hs
unfolding clone_hosts
clone_hosts-eq [] maps = refl
clone_hosts-eq (h ∷ hs) maps = ap₂ ◌∷◌ (clone_host-eq h maps.0) (clone_hosts-eq hs maps.1)

-- A snapshot whose hosts have maps is its own clone, field by field.
pub clone_snapshot-eq : (s : Snapshot) → All HasMap s.state.hosts → clone_snapshot s ≡ s
unfolding clone_snapshot clone_state
clone_snapshot-eq s maps = cc (clone_hosts-eq s.state.hosts maps)

-- The hosts of a clone have maps.
pub clone_hosts-HasMap : (hs : List DesiredHost) → All HasMap (clone_hosts hs)
unfolding clone_hosts clone_host
clone_hosts-HasMap [] = tt
clone_hosts-HasMap (h ∷ hs) = (copy-IsMap h.labels, clone_hosts-HasMap hs)
