-- ===== src/Inventory/Cadvisor/Tests.antt =====
-- The root, a container with an alias, a system container, and one without a name.
use infrastructure_managemen.Common.{
  String, ◌≡◌, refl, false, none, List, [], ◌∷◌, ◌==◌, if◌then◌else◌, map,
}
use infrastructure_managemen.Common.Int.{pos}
use infrastructure_managemen.Common.Text.{trim_space, to_lower}
use infrastructure_managemen.Common.Paths.{
  trim_slashes, trim_left_slashes, trim_right_slashes, keep_slash, base, last_element,
}
use infrastructure_managemen.Common.Order.{sort_by, insert_by}
use infrastructure_managemen.Inventory.Domain.{Workload}
use infrastructure_managemen.Inventory.Cadvisor.{
  ContainerInfo, ContainersResponse, normalize_containers, filter_workloads, normalize_loop,
  is_root, to_workload, pick_workload_id, pick_workload_name, name_or, pick_runtime, pick_last_seen,
  later, without_system, is_likely_system_workload, is_zero,
}
use infrastructure_managemen.Inventory.Cadvisor.Laws.{
  IsCollected, filter_workloads-normalize_containers,
}

abbrev container : String → List String → String → ContainerInfo
container name aliases image = record {
  name = name;
  aliases = aliases;
  namespace = if image == "" then "" else "docker";
  spec = record { image = image };
  stats = record { timestamp = record { wall = pos 5; mono = none } } ∷ [];
}

abbrev response : ContainersResponse
response =
    container "/" [] ""
    ∷ container "/docker/2" (" /web/ " ∷ []) "nginx"
    ∷ container "/system.slice" [] ""
    ∷ container " " [] ""
    ∷ container "/docker/1" (" " ∷ []) "redis"
    ∷ []

filter_workloads-normalize_containers_example :
    IsCollected false response (filter_workloads (normalize_containers response).0 false)
filter_workloads-normalize_containers_example = filter_workloads-normalize_containers response false

abbrev names : List Workload → List (String × String)
names ws = map (λ (w : Workload). (w.id, w.name)) ws

two_of_five :
    names (filter_workloads (normalize_containers response).0 false)
    ≡ ("/docker/1", "1") ∷ ("/web/", "web") ∷ []
unfolding normalize_containers filter_workloads normalize_loop is_root to_workload pick_workload_id
    pick_workload_name name_or pick_runtime pick_last_seen later without_system
    is_likely_system_workload is_zero trim_space to_lower trim_slashes trim_left_slashes
    trim_right_slashes keep_slash base last_element sort_by insert_by
two_of_five = refl
