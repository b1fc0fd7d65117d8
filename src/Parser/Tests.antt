-- ===== src/Parser/Tests.antt =====
-- A manifest with one host and one workload, loaded beside a broken file.
use infrastructure_managemen.Parser.Load.Ids.{AreUnique, load_desired_state-AreUnique}
use infrastructure_managemen.Common.Text.{trim_space, equal_fold, to_lower}
use infrastructure_managemen.Common.Order.{sort_by, insert_by}
use infrastructure_managemen.Common.{
  ℕ, ◌<◌, String, ◌≡◌, ◌↔◌, refl, true, none, List, [], ◌∷◌, ◌==◌, if◌then◌else◌, Result, ok, err,
}
use infrastructure_managemen.Common.Int.{ℤ, pos, eqb_ℤ}
use infrastructure_managemen.Common.Numerals.{itoa}
use infrastructure_managemen.Common.Maps.{lookup, copy, insert}
use infrastructure_managemen.Common.Clock.{Time, utc}
use infrastructure_managemen.Parser.Domain.{
  DesiredWorkload, DesiredHost, Snapshot, clone_host, clone_workload, clone_workloads,
}
use infrastructure_managemen.Parser.Values.{
  Floats, text, int, normalize_string, bool_of_text, normalize_bool,
}
use infrastructure_managemen.Parser.Manifest.{
  NodeFields, node, nil, cons, StructurizrManifest, parse_structurizr_manifest,
}
use infrastructure_managemen.Parser.Validator.{
  validate_host, validate_workload, host_errors, is_blank, require, workload_errors,
}
use infrastructure_managemen.Parser.Validator.Laws.{
  IsCompleteHost, validate_host_iff, IsCompleteWorkload, validate_workload_iff,
}
use infrastructure_managemen.Parser.Mapper.{
  map_manifest, walk_all, visit_node, visit, map_host, finish_host, validated, add_containers,
  add_mapped, add_warning, add_workload, build_container_map, finish_workload, map_instances,
  map_workload,
}
use infrastructure_managemen.Parser.Mapper.Fields.{
  get_required_string, extract_labels, get_optional_string, get_required_bool, is_reserved, label,
  labels_loop, put_unless_empty,
}
use infrastructure_managemen.Parser.Mapper.Walk.{IsWalked, map_manifest-IsWalked}
use infrastructure_managemen.Parser.Store.{empty_metadata, get_snapshot, get_host, is_ready}
use infrastructure_managemen.Parser.Store.Laws.{last_host_with_id}
use infrastructure_managemen.Parser.Query.{Query}
use infrastructure_managemen.Parser.Load.{
  load_desired_state, serve, build_snapshot, load_files, count_workloads, add_file, map_values,
  map_file, put_hosts,
}
use infrastructure_managemen.Parser.Load.Laws.{
  IsLoaded, load_desired_state-IsLoaded, get_snapshot-serve,
}

-- Whole numbers stand for the floats.
abbrev pub floats : Floats
floats = record { Float = ℤ; of_int = λ n. n; to_int = λ n. n; equal = eqb_ℤ; format = itoa }

abbrev web : NodeFields ℤ
web = record {
  id = "n1";
  name = "web";
  environment = "dev";
  properties =
      ("host_id", text "web-1")
      ∷ ("fqdn", text "web1.example.com")
      ∷ ("env", text "dev")
      ∷ ("managed_by", text "ops")
      ∷ ("purpose", text "front")
      ∷ ("tier", int (pos 1))
      ∷ [];
  container_instances =
      record {
        id = "i1";
        container_id = "c1";
        properties =
            ("enabled", text "yes")
            ∷ ("deployment_mode", text "container")
            ∷ ("image", text "cadvisor:v1")
            ∷ [];
      }
      ∷ [];
}

abbrev pub manifest : StructurizrManifest ℤ
manifest = record {
  deployment_nodes = cons (node web nil nil) nil;
  software_systems =
      record {
        id = "s1";
        name = "monitoring";
        containers = record { id = "c1"; name = "cadvisor" } ∷ [];
      }
      ∷ [];
}

abbrev load_file : String → Result String String
load_file path = if path == "good.json" then ok "manifest" else err "no such file"

abbrev pub unmarshal : String → Result String (StructurizrManifest ℤ)
unmarshal content = ok manifest

abbrev files : List String
files = "good.json" ∷ "missing.json" ∷ []

abbrev pub now : Time
now = record { wall = pos 7; mono = none }

abbrev loaded : Snapshot
loaded = load_desired_state floats load_file unmarshal now files "dir" "/etc/manifests" 1

abbrev workload : DesiredWorkload
workload = record {
  name = "cadvisor";
  enabled = true;
  deployment_mode = "container";
  image = " ";
  version = none;
  port = none;
}

abbrev host : DesiredHost
host = record {
  host_id = "web-1";
  fqdn = "web1.example.com";
  ip = "";
  labels = ("env", "dev") ∷ [];
  env = "dev";
  managed_by = "ops";
  purpose = "front";
  workloads = workload ∷ [];
}

abbrev snapshot : Snapshot
snapshot = record { state = record { hosts = host ∷ [] }; metadata = empty_metadata }

abbrev query : Query
query = record { fqdn = "WEB1.example.com"; label_filters = ("env", "dev") ∷ [] }

load_desired_state-IsLoaded_example : IsLoaded 2 1 loaded
load_desired_state-IsLoaded_example =
    load_desired_state-IsLoaded floats load_file unmarshal now files "dir" "/etc/manifests" 1

load_desired_state-AreUnique_example : AreUnique loaded.state.hosts
load_desired_state-AreUnique_example =
    load_desired_state-AreUnique floats load_file unmarshal now files "dir" "/etc/manifests" 1

get_snapshot-serve_example :
    ((is_ready (serve floats load_file unmarshal now files "dir" "/etc/manifests" 1) ≡ true)
      ↔ (0 < loaded.metadata.files_loaded))
    × (get_snapshot (serve floats load_file unmarshal now files "dir" "/etc/manifests" 1) ≡ loaded)
    × (get_host (serve floats load_file unmarshal now files "dir" "/etc/manifests" 1) "web-1"
        ≡ last_host_with_id "web-1" loaded.state.hosts)
get_snapshot-serve_example =
    get_snapshot-serve floats load_file unmarshal now files "dir" "/etc/manifests" 1 "web-1"

map_manifest-IsWalked_example : IsWalked (map_manifest floats manifest "good.json")
map_manifest-IsWalked_example = map_manifest-IsWalked floats manifest "good.json"

validate_host_iff_example : (validate_host host ≡ none) ↔ IsCompleteHost host
validate_host_iff_example = validate_host_iff host

validate_workload_iff_example : (validate_workload workload ≡ none) ↔ IsCompleteWorkload workload
validate_workload_iff_example = validate_workload_iff workload

abbrev summary : Snapshot → List ℕ
summary s =
    s.metadata.files_total ∷ s.metadata.files_loaded ∷ s.metadata.files_broken
    ∷ s.metadata.hosts_total ∷ s.metadata.workloads_total ∷ []

one_of_three : summary loaded ≡ 3 ∷ 1 ∷ 1 ∷ 1 ∷ 1 ∷ []
unfolding load_desired_state build_snapshot load_files sort_by count_workloads add_file map_values
    map_file parse_structurizr_manifest put_hosts map_manifest walk_all visit_node visit map_host
    get_required_string lookup normalize_string trim_space finish_host validated utc copy insert
    insert_by equal_fold to_lower clone_host clone_workload clone_workloads add_containers
    add_mapped add_warning add_workload build_container_map extract_labels finish_workload
    get_optional_string get_required_bool is_reserved label labels_loop map_instances map_workload
    put_unless_empty host_errors is_blank require validate_host validate_workload workload_errors
    bool_of_text normalize_bool
one_of_three = refl
