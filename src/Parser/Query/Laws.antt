-- ===== src/Parser/Query/Laws.antt =====
-- What the filters of a host list keep.
use infrastructure_managemen.Common.{String, ◌≡◌, true, some, List, All}
use infrastructure_managemen.Common.Maps.{Map, lookup}
use infrastructure_managemen.Parser.Domain.{DesiredHost}
use infrastructure_managemen.Parser.Query.{Query, match_fqdn}

-- The host has every label of the query with its value.
pub HasLabels : DesiredHost → Map String → Type 0
HasLabels h filters = All (λ (f : String × String). lookup f.0 h.labels ≡ some f.1) filters

-- What a query asks of a host: its FQDN up to case, unless the query's is blank, and all the labels.
pub Answers : Query → DesiredHost → Type 0
Answers q h = (match_fqdn h q.fqdn ≡ true) × HasLabels h q.label_filters
