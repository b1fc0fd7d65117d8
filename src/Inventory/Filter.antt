-- ===== src/Inventory/Filter.antt =====
-- FilterHostsByLabels and ListHosts of InventorySvc/internal/service/inventory/service.go.
pub mod Laws
use infrastructure_managemen.Common.{
  String, Bool, true, false, ◌&&◌, Option, none, some, List, [], ◌∷◌, ◌==◌,
}
use infrastructure_managemen.Common.Maps.{Map, lookup}
use infrastructure_managemen.Inventory.Domain.{Host, InventoryMetadata, clone_host, clone_hosts}
use infrastructure_managemen.Inventory.Store.{Store, get_snapshot}

-- A label that is there with the expected value.
abbrev pub has_value : Option String → String → Bool
has_value none expected = false
has_value (some actual) expected = actual == expected

unfoldable pub host_matches_all_filters : Host → Map String → Bool
host_matches_all_filters host [] = true
host_matches_all_filters host ((key, expected) ∷ filters) =
    has_value (lookup key host.labels) expected && host_matches_all_filters host filters

abbrev pub append_if : Bool → Host → List Host → List Host
append_if false host rest = rest
append_if true host rest = clone_host host ∷ rest

-- The second loop of FilterHostsByLabels.
unfoldable pub matching_hosts : List Host → Map String → List Host
matching_hosts [] filters = []
matching_hosts (host ∷ hosts) filters =
    append_if (host_matches_all_filters host filters) host (matching_hosts hosts filters)

unfoldable pub filter_hosts_by_labels : List Host → Map String → List Host
filter_hosts_by_labels hosts [] = clone_hosts hosts
filter_hosts_by_labels hosts (filter ∷ filters) = matching_hosts hosts (filter ∷ filters)

-- (*Service).ListHosts
unfoldable pub list_hosts : Store → Map String → List Host × InventoryMetadata
list_hosts s label_filters =
    let snapshot = get_snapshot s in
    (filter_hosts_by_labels snapshot.hosts label_filters, snapshot.metadata)
