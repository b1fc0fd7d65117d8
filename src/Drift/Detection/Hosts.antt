-- ===== src/Drift/Detection/Hosts.antt =====
-- indexActualHosts and lookupActualHost of DriftDetectorSvc/internal/service/detection/service.go.
pub mod Laws
use infrastructure_managemen.Common.{String, Option, none, some, List, [], ◌∷◌, ◌==◌, if◌then◌else◌}
use infrastructure_managemen.Common.Text.{trim_space, to_lower}
use infrastructure_managemen.Common.Maps.{Map, lookup, insert}
use infrastructure_managemen.Drift.Domain.{DesiredHost, ActualHost}

-- The two maps that the index consists of.
pub record Index : Type 0 where
  pub hosts_by_id : Map ActualHost
  pub hosts_by_fqdn : Map ActualHost

-- strings.ToLower(strings.TrimSpace(s))
unfoldable pub normalized : String → String
normalized s = to_lower (trim_space s)

unfoldable pub put_unless_empty : String → ActualHost → Map ActualHost → Map ActualHost
put_unless_empty key host m = if key == "" then m else insert key host m

unfoldable pub index_host : Index → ActualHost → Index
index_host ix host = record {
  hosts_by_id = put_unless_empty (normalized host.host_id) host ix.hosts_by_id;
  hosts_by_fqdn = put_unless_empty (normalized host.fqdn) host ix.hosts_by_fqdn;
}

unfoldable pub index_loop : Index → List ActualHost → Index
index_loop ix [] = ix
index_loop ix (host ∷ hosts) = index_loop (index_host ix host) hosts

unfoldable pub index_actual_hosts : List ActualHost → Index
index_actual_hosts hosts = index_loop (record { hosts_by_id = []; hosts_by_fqdn = [] }) hosts

unfoldable pub lookup_unless_empty : String → Map ActualHost → Option ActualHost
lookup_unless_empty key m = if key == "" then none else lookup key m

abbrev pub or_else : Option ActualHost → Option ActualHost → Option ActualHost
or_else none other = other
or_else (some host) other = some host

unfoldable pub lookup_actual_host : DesiredHost → Index → Option ActualHost
lookup_actual_host desired ix =
    or_else (lookup_unless_empty (normalized desired.host_id) ix.hosts_by_id)
      (lookup_unless_empty (normalized desired.fqdn) ix.hosts_by_fqdn)
