-- ===== src/Inventory/Cadvisor.antt =====
-- InventorySvc/internal/sources/cadvisor: types.go and mapper.go.
pub mod Client
pub mod Source
pub mod Laws
pub mod Tests
use infrastructure_managemen.Common.{
  String, Bool, true, false, ◌&&◌, ◌||◌, Option, none, some, List, [], ◌∷◌, ◌==◌, if◌then◌else◌,
}
use infrastructure_managemen.Common.Int.{eqb_ℤ}
use infrastructure_managemen.Common.Text.{trim_space, to_lower}
use infrastructure_managemen.Common.Paths.{trim_slashes, base}
use infrastructure_managemen.Common.Order.{str_lt, sort_by}
use infrastructure_managemen.Common.Clock.{Time, zero_time, utc, after}
use infrastructure_managemen.Inventory.Domain.{Workload}

pub record ContainerSpec : Type 0 where
  pub image : String

pub record ContainerStat : Type 0 where
  pub timestamp : Time

pub record ContainerInfo : Type 0 where
  pub name : String
  pub aliases : List String
  pub namespace : String
  pub spec : ContainerSpec
  pub stats : List ContainerStat

abbrev pub ContainersResponse : Type 0
ContainersResponse = List ContainerInfo

abbrev pub source_name : String
source_name = "cadvisor"

unfoldable pub pick_workload_id : String → List String → String
pick_workload_id key [] = if key == "" then "unknown" else key
pick_workload_id key (alias ∷ aliases) =
    let found = trim_space alias in
    let rest = pick_workload_id key aliases in if found == "" then rest else found

-- A text without its outer slashes, cut to its last element, or else the given name.
unfoldable pub name_or : String → String → String
name_or s other = let cleaned = trim_slashes s in if cleaned == "" then other else base cleaned

unfoldable pub pick_workload_name : String → List String → String
pick_workload_name key [] = name_or key "unknown"
pick_workload_name key (alias ∷ aliases) =
    let found = trim_space alias in
    let rest = pick_workload_name key aliases in if found == "" then rest else name_or found rest

unfoldable pub pick_runtime : String → String
pick_runtime namespace =
    let runtime = trim_space namespace in if runtime == "" then "unknown" else runtime

-- t.IsZero()
unfoldable pub is_zero : Time → Bool
is_zero t = eqb_ℤ t.wall zero_time.wall

-- The last of the stats decides.
unfoldable pub pick_last_seen : List ContainerStat → Option Time
pick_last_seen [] = none
pick_last_seen (stat ∷ []) = if is_zero stat.timestamp then none else some (utc stat.timestamp)
pick_last_seen (stat ∷ (next ∷ stats)) = pick_last_seen (next ∷ stats)

-- The later one of the latest instant so far and a container's.
unfoldable pub later : Option Time → Time → Time
later none latest = latest
later (some seen) latest = if after seen latest then seen else latest

unfoldable pub to_workload : String → ContainerInfo → Workload
to_workload name container = record {
  id = pick_workload_id name container.aliases;
  name = pick_workload_name name container.aliases;
  image = trim_space container.spec.image;
  runtime = pick_runtime container.namespace;
  source = source_name;
  last_seen_at = pick_last_seen container.stats;
}

-- A container without a name is the root, as `/` is.
unfoldable pub is_root : String → Bool
is_root name = if name == "" then true else name == "/"

-- The loop over the sorted containers, from the latest instant so far on.
unfoldable pub normalize_loop : Time → List ContainerInfo → List Workload × Time
normalize_loop latest [] = ([], latest)
normalize_loop latest (container ∷ containers) =
    let name = trim_space container.name in
    let skipped = normalize_loop latest containers in
    let (workloads, latest') =
      normalize_loop (later (pick_last_seen container.stats) latest) containers in
    if is_root name then skipped else (to_workload name container ∷ workloads, latest')

abbrev pub name_lt : ContainerInfo → ContainerInfo → Bool
name_lt a b = str_lt (trim_space a.name) (trim_space b.name)

-- sort.Slice leaves the order of containers with one name open; here it is that of the response.
unfoldable pub normalize_containers : ContainersResponse → List Workload × Time
normalize_containers response = normalize_loop zero_time (sort_by name_lt response)

unfoldable pub is_likely_system_workload : Workload → Bool
is_likely_system_workload w =
    let runtime = trim_space (to_lower w.runtime) in
    trim_space w.image == "" && (runtime == "" || runtime == "unknown")

-- One turn of the loop, before the rest of the result.
abbrev pub unless_system : Bool → Workload → List Workload → List Workload
unless_system true w rest = rest
unless_system false w rest = w ∷ rest

unfoldable pub without_system : List Workload → List Workload
without_system [] = []
without_system (w ∷ ws) = unless_system (is_likely_system_workload w) w (without_system ws)

unfoldable pub filter_workloads : List Workload → Bool → List Workload
filter_workloads ws true = ws
filter_workloads ws false = without_system ws
