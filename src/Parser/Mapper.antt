-- ===== src/Parser/Mapper.antt =====
-- ParserSvc/internal/mapper/mapper.go: from a manifest to the desired hosts. An error is a value with
-- what its message names; the rendering of messages is not modelled.
pub mod Fields
pub mod Hosts
pub mod Walk
use infrastructure_managemen.Common.{
  ℕ, ◌+◌, String, Bool, true, false, ◌||◌, Option, none, some, List, [], ◌∷◌, ◌++◌, ◌==◌,
  if◌then◌else◌, Result, ok, err, map_err, ◌>>=◌,
}
use text.Mathlib.Text.{starts_with}
use infrastructure_managemen.Common.Int.{ℤ}
use infrastructure_managemen.Common.Text.{trim_space}
use infrastructure_managemen.Common.Maps.{Map, lookup, insert}
use infrastructure_managemen.Parser.Domain.{DesiredHost, DesiredWorkload}
use infrastructure_managemen.Parser.Values.{
  Floats, Value, ValueError, normalize_string, normalize_bool, normalize_int,
}
use infrastructure_managemen.Parser.Manifest.{
  Container, SoftwareSystem, ContainerInstance, NodeFields, DeploymentNode, node, Nodes, nil, cons,
  StructurizrManifest,
}
use infrastructure_managemen.Parser.Validator.{validate_host, validate_workload, is_blank}
use infrastructure_managemen.Parser.Mapper.Fields.{
  MapError, invalid_host, invalid_workload, container_not_found, invalid_port, invalid_version,
  get_required_string, get_optional_string, get_required_bool, extract_labels,
}

pub record Warning : Type 0 where
  pub file : String
  pub node_id : String
  pub host_id : String
  pub workload : String
  pub reason : MapError

-- type Result struct
pub record MapResult : Type 0 where
  pub hosts : List DesiredHost
  pub warnings : List Warning
  pub workloads : ℕ

unfoldable pub add_warning : Warning → MapResult → MapResult
add_warning w r = record r { warnings = r.warnings ++ w ∷ [] }

-- The loops of buildContainerMap.
unfoldable pub add_containers : List Container → Map String → Map String
add_containers [] m = m
add_containers (c ∷ cs) m =
    add_containers cs
      (if trim_space c.id == "" then m else insert (trim_space c.id) (trim_space c.name) m)

unfoldable pub build_container_map : List SoftwareSystem → Map String → Map String
build_container_map [] m = m
build_container_map (s ∷ ss) m = build_container_map ss (add_containers s.containers m)

-- if err := …; err != nil { return …, err }
unfoldable pub validated :
    {A : Type 0} → (String → MapError) → Option String → A → Result MapError A
validated f none a = ok a
validated f (some message) a = err (f message)

module _ (floats : Floats) where
  open floats use {Float}

  unfoldable pub finish_host :
      NodeFields Float → String → String → String → String → String → Result MapError DesiredHost
  finish_host n host_id fqdn env managed_by purpose =
      let host : DesiredHost = record {
        host_id = host_id;
        fqdn = fqdn;
        ip = get_optional_string floats n.properties "ip";
        labels = extract_labels floats n.properties env managed_by purpose;
        env = env;
        managed_by = managed_by;
        purpose = purpose;
        workloads = [];
      } in
      validated invalid_host (validate_host host) host

  unfoldable pub map_host : NodeFields Float → Result MapError DesiredHost
  map_host n = do
    host_id ← get_required_string floats n.properties "host_id"
    fqdn ← get_required_string floats n.properties "fqdn"
    env ← get_required_string floats n.properties "env"
    managed_by ← get_required_string floats n.properties "managed_by"
    purpose ← get_required_string floats n.properties "purpose"
    finish_host n host_id fqdn env managed_by purpose

  abbrev port_of : Option (Value Float) → Result MapError (Option ℤ)
  port_of none = ok none
  port_of (some value) = map_err invalid_port (normalize_int floats value) >>= λ p. ok (some p)

  abbrev version_of : Option (Value Float) → Result MapError (Option String)
  version_of none = ok none
  version_of (some value) = map_err invalid_version (normalize_string floats value) >>= λ v.
      ok (if v == "" then none else some v)

  abbrev container_name : String → Option String → Result MapError String
  container_name id none = err (container_not_found id)
  container_name id (some name) = if is_blank name then err (container_not_found id) else ok name

  unfoldable pub finish_workload :
      ContainerInstance Float
      → String
      → Bool
      → String
      → Option ℤ
      → Option String
      → Result MapError DesiredWorkload
  finish_workload instance_ name enabled deployment_mode port version =
      let workload : DesiredWorkload = record {
        name = name;
        enabled = enabled;
        deployment_mode = deployment_mode;
        image = get_optional_string floats instance_.properties "image";
        version = version;
        port = port;
      } in
      validated invalid_workload (validate_workload workload) workload

  unfoldable pub map_workload :
      Map String → ContainerInstance Float → Result MapError DesiredWorkload
  map_workload names instance_ = do
    name ←
        container_name (trim_space instance_.container_id)
          (lookup (trim_space instance_.container_id) names)
    enabled ← get_required_bool floats instance_.properties "enabled"
    deployment_mode ← get_required_string floats instance_.properties "deployment_mode"
    port ← port_of (lookup "port" instance_.properties)
    version ← version_of (lookup "version" instance_.properties)
    finish_workload instance_ name enabled deployment_mode port version

  -- The loop over a node's instances, with the host at hand.
  unfoldable pub add_workload :
      String
      → String
      → String
      → Result MapError DesiredWorkload
      → DesiredHost × MapResult
      → DesiredHost × MapResult
  add_workload file node_id instance_id (err e) (host, r) = (
    host,
    add_warning
        (record {
          file = file;
          node_id = node_id;
          host_id = host.host_id;
          workload = instance_id;
          reason = e;
        })
        r,
  )
  add_workload file node_id instance_id (ok workload) (host, r) = (
    record host { workloads = host.workloads ++ workload ∷ [] },
    record r { workloads = r.workloads + 1 },
  )

  unfoldable pub map_instances :
      String
      → String
      → Map String
      → List (ContainerInstance Float)
      → DesiredHost × MapResult
      → DesiredHost × MapResult
  map_instances file node_id names [] s = s
  map_instances file node_id names (i ∷ is) s =
      map_instances file node_id names is (add_workload file node_id i.id (map_workload names i) s)

  unfoldable pub add_mapped : DesiredHost × MapResult → MapResult
  add_mapped (host, r) = record r { hosts = r.hosts ++ host ∷ [] }

  -- A node without its children: the head of walkDeploymentNode.
  unfoldable pub visit :
      String → Map String → NodeFields Float → Result MapError DesiredHost → MapResult → MapResult
  visit file names n (err e) r =
      add_warning (record { file = file; node_id = n.id; host_id = ""; workload = ""; reason = e })
        r
  visit file names n (ok host) r =
      add_mapped (map_instances file n.id names n.container_instances (host, r))

-- The walk of walkDeploymentNode, with the head of a visit as an argument. The children come before the
-- nested deployment nodes, as in ChildNodes.
unfoldable mutual
  pub walk :
      {F : Type 0}
      → (NodeFields F → MapResult → MapResult)
      → DeploymentNode F
      → MapResult
      → MapResult
  walk f (node n children nested) r = walk_all f nested (walk_all f children (f n r))

  pub walk_all :
      {F : Type 0} → (NodeFields F → MapResult → MapResult) → Nodes F → MapResult → MapResult
  walk_all f nil r = r
  walk_all f (cons n ns) r = walk_all f ns (walk f n r)

-- walkDeploymentNode
unfoldable pub visit_node :
    (floats : Floats) → String → Map String → NodeFields floats.Float → MapResult → MapResult
visit_node floats file names n r = visit floats file names n (map_host floats n) r

-- MapManifest
unfoldable pub map_manifest :
    (floats : Floats) → StructurizrManifest floats.Float → String → MapResult
map_manifest floats manifest file =
    walk_all (visit_node floats file (build_container_map manifest.software_systems []))
      manifest.deployment_nodes (record { hosts = []; warnings = []; workloads = 0 })
