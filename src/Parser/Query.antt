-- ===== src/Parser/Query.antt =====
-- ParserSvc/internal/service/desiredstate/service.go: the filters of a host list.
pub mod Laws
use infrastructure_managemen.Common.{
  String, Bool, true, false, ◌&&◌, Option, none, some, List, [], ◌∷◌, ◌==◌, if◌then◌else◌,
}
use infrastructure_managemen.Common.Text.{trim_space, equal_fold}
use infrastructure_managemen.Common.Maps.{Map, lookup}
use infrastructure_managemen.Parser.Domain.{DesiredHost, clone_host}
use infrastructure_managemen.Parser.Store.{Store, get_snapshot}

-- type Query struct
pub record Query : Type 0 where
  pub fqdn : String
  pub label_filters : Map String

unfoldable pub match_fqdn : DesiredHost → String → Bool
match_fqdn host fqdn =
    let normalized = trim_space fqdn in
    if normalized == "" then true else equal_fold host.fqdn normalized

abbrev pub match_label : Option String → String → Bool
match_label none expected = false
match_label (some actual) expected = actual == expected

unfoldable pub match_labels : DesiredHost → Map String → Bool
match_labels host [] = true
match_labels host ((key, expected) ∷ filters) =
    match_label (lookup key host.labels) expected && match_labels host filters

-- One turn of FilterHosts' loop, before the rest of the result.
abbrev pub keep_if : Bool → Bool → DesiredHost → List DesiredHost → List DesiredHost
keep_if false labels host rest = rest
keep_if true false host rest = rest
keep_if true true host rest = clone_host host ∷ rest

unfoldable pub filter_hosts : List DesiredHost → Query → List DesiredHost
filter_hosts [] query = []
filter_hosts (host ∷ hosts) query =
    keep_if (match_fqdn host query.fqdn) (match_labels host query.label_filters) host
      (filter_hosts hosts query)

-- (*Service).ListHosts
unfoldable pub list_hosts : Store → Query → List DesiredHost
list_hosts s query = filter_hosts (get_snapshot s).state.hosts query
