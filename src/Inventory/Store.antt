-- ===== src/Inventory/Store.antt =====
-- InventorySvc/internal/store/memory/store.go; each method holds the store's lock from end to end.
pub mod Laws
use infrastructure_managemen.Common.{String, Bool, false, Option, none, some, List, [], ◌∷◌}
use infrastructure_managemen.Common.Int.{pos}
use infrastructure_managemen.Common.Maps.{Map, lookup, insert}
use infrastructure_managemen.Inventory.Domain.{
  Host, InventorySnapshot, InventoryMetadata, clone_host, clone_snapshot,
}

pub record Store : Type 0 where
  pub snapshot : InventorySnapshot
  pub hosts_by_id : Map Host
  pub ready : Bool

abbrev pub empty_metadata : InventoryMetadata
empty_metadata = record {
  is_partial = false;
  total_hosts = 0;
  failed_hosts = 0;
  last_sync_at = none;
  last_successful_sync_at = none;
  last_full_sync_at = none;
  last_partial_sync_at = none;
  sync_duration_ms = pos 0;
}

-- NewStore
abbrev pub new_store : Store
new_store = record {
  snapshot = record { hosts = []; metadata = empty_metadata };
  hosts_by_id = [];
  ready = false;
}

unfoldable pub index_loop : Map Host → List Host → Map Host
index_loop m [] = m
index_loop m (host ∷ hosts) = index_loop (insert host.id (clone_host host) m) hosts

unfoldable pub replace : InventorySnapshot → Store → Store
replace snapshot s =
    let cloned = clone_snapshot snapshot in
    record s { snapshot = cloned; hosts_by_id = index_loop [] cloned.hosts }

unfoldable pub get_snapshot : Store → InventorySnapshot
get_snapshot s = clone_snapshot s.snapshot

abbrev pub clone_found : Option Host → Option Host
clone_found none = none
clone_found (some host) = some (clone_host host)

unfoldable pub get_host : Store → String → Option Host
get_host s id = clone_found (lookup id s.hosts_by_id)

unfoldable pub set_ready : Bool → Store → Store
set_ready ready s = record s { ready = ready }

unfoldable pub is_ready : Store → Bool
is_ready s = s.ready
