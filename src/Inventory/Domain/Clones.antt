-- ===== src/Inventory/Domain/Clones.antt =====
-- A clone has the contents of its original.
use infrastructure_managemen.Common.{
  String, ◌≡◌, refl, ap, ap₂, Option, none, some, List, [], ◌∷◌, All,
}
use infrastructure_managemen.Common.Maps.{
  IsMap, copy-eq, copy_with-same, copy-IsMap, copy_with-IsMap,
}
use infrastructure_managemen.Common.Clock.{Time}
use infrastructure_managemen.Inventory.Domain.{
  Workload, SourceStatus, Host, InventorySnapshot, clone_time_ptr, clone_errors, clone_workloads,
  clone_status, clone_host, clone_hosts, clone_snapshot,
}

-- Both maps of a host have each key once, as Go's maps do.
pub record HasMaps (h : Host) : Type 0 where
  pub labels : IsMap h.labels
  pub source_status : IsMap h.source_status

clone_time_ptr-eq : (t : Option Time) → clone_time_ptr t ≡ t
unfolding clone_time_ptr
clone_time_ptr-eq none = refl
clone_time_ptr-eq (some t) = refl

clone_errors-eq : (es : List String) → clone_errors es ≡ es
unfolding clone_errors
clone_errors-eq [] = refl
clone_errors-eq (e ∷ es) = ap (◌∷◌ e) (clone_errors-eq es)

clone_workloads-eq : (ws : List Workload) → clone_workloads ws ≡ ws
unfolding clone_workloads
clone_workloads-eq [] = refl
clone_workloads-eq (w ∷ ws) =
    ap₂ ◌∷◌
      (ap (λ (t : Option Time). record w { last_seen_at = t }) (clone_time_ptr-eq w.last_seen_at))
      (clone_workloads-eq ws)

clone_status-eq : (s : SourceStatus) → clone_status s ≡ s
unfolding clone_status
clone_status-eq s =
    ap (λ (t : Option Time). record s { observed_at = t }) (clone_time_ptr-eq s.observed_at)

pub clone_host-eq : (h : Host) → HasMaps h → clone_host h ≡ h
unfolding clone_host
clone_host-eq h maps = cc (
  copy-eq h.labels maps.labels,
  copy_with-same clone_status clone_status-eq h.source_status,
  copy-eq h.source_status maps.source_status,
  clone_workloads-eq h.workloads,
  clone_time_ptr-eq h.last_observed_at,
  clone_errors-eq h.errors,
)

pub clone_hosts-eq : (hs : List Host) → All HasMaps hs → clone_hosts hs ≡ hs
unfolding clone_hosts
clone_hosts-eq [] maps = refl
clone_hosts-eq (h ∷ hs) maps = ap₂ ◌∷◌ (clone_host-eq h maps.0) (clone_hosts-eq hs maps.1)

-- A snapshot whose hosts have maps is its own clone, field by field.
pub clone_snapshot-eq : (s : InventorySnapshot) → All HasMaps s.hosts → clone_snapshot s ≡ s
unfolding clone_snapshot
clone_snapshot-eq s maps = cc (
  clone_hosts-eq s.hosts maps,
  clone_time_ptr-eq s.metadata.last_sync_at,
  clone_time_ptr-eq s.metadata.last_successful_sync_at,
  clone_time_ptr-eq s.metadata.last_full_sync_at,
  clone_time_ptr-eq s.metadata.last_partial_sync_at,
)

-- The hosts of a clone have maps.
pub clone_hosts-HasMaps : (hs : List Host) → All HasMaps (clone_hosts hs)
unfolding clone_hosts clone_host
clone_hosts-HasMaps [] = tt
clone_hosts-HasMaps (h ∷ hs) = (
  record {
    labels = copy-IsMap h.labels;
    source_status = copy_with-IsMap clone_status h.source_status;
  },
  clone_hosts-HasMaps hs,
)
