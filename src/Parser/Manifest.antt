-- ===== src/Parser/Manifest.antt =====
-- ParserSvc/internal/parser/structurizr.go: the shape of a manifest.
use infrastructure_managemen.Common.{String, List, ◌≡◌, refl, ap, sym, Result, ok, err}
use infrastructure_managemen.Common.Maps.{Map}
use infrastructure_managemen.Parser.Values.{Value}

-- The technology and the properties of a container are never read.
pub record Container : Type 0 where
  pub id : String
  pub name : String

pub record SoftwareSystem : Type 0 where
  pub id : String
  pub name : String
  pub containers : List Container

pub record ContainerInstance (F : Type 0) : Type 0 where
  pub id : String
  pub container_id : String
  pub properties : Map (Value F)

-- The fields of a deployment node but for its two lists of nodes.
pub record NodeFields (F : Type 0) : Type 0 where
  pub id : String
  pub name : String
  pub environment : String
  pub properties : Map (Value F)
  pub container_instances : List (ContainerInstance F)

mutual
  pub data DeploymentNode (F : Type 0) : Type 0 where
    node : NodeFields F → Nodes F → Nodes F → DeploymentNode F

  pub data Nodes (F : Type 0) : Type 0 where
    nil : Nodes F
    cons : DeploymentNode F → Nodes F → Nodes F

-- A node's `Children` and `DeploymentNodes` are the two lists of `node`.
pub record StructurizrManifest (F : Type 0) : Type 0 where
  pub deployment_nodes : Nodes F
  pub software_systems : List SoftwareSystem

module _ {F : Type 0} where
  unfoldable pub append_nodes : Nodes F → Nodes F → Nodes F
  append_nodes nil ms = ms
  append_nodes (cons n ns) ms = cons n (append_nodes ns ms)

  -- (DeploymentNode).ChildNodes
  unfoldable pub child_nodes : DeploymentNode F → Nodes F
  child_nodes (node fields nil deployment_nodes) = deployment_nodes
  child_nodes (node fields children nil) = children
  child_nodes (node fields children deployment_nodes) = append_nodes children deployment_nodes

  pub append_nodes-nil : (ns : Nodes F) → append_nodes ns nil ≡ ns
  unfolding append_nodes
  append_nodes-nil nil = refl
  append_nodes-nil (cons n ns) = ap (cons n) (append_nodes-nil ns)

  -- The children come first, and then the nested deployment nodes.
  pub child_nodes_lem :
      (fields : NodeFields F) (children nested : Nodes F)
      → child_nodes (node fields children nested) ≡ append_nodes children nested
  unfolding child_nodes append_nodes
  child_nodes_lem fields nil nested = refl
  child_nodes_lem fields (cons n ns) nil = ap (cons n) (sym (append_nodes-nil ns))
  child_nodes_lem fields (cons n ns) (cons m ms) = refl

-- The error of ParseStructurizrManifest; json.Unmarshal is an argument.
pub data ParseError : Type 0 where
  unmarshal_failed : String → ParseError
  no_deployment_nodes : ParseError

abbrev check_nodes :
    {F : Type 0} → StructurizrManifest F → Nodes F → Result ParseError (StructurizrManifest F)
check_nodes manifest nil = err no_deployment_nodes
check_nodes manifest (cons n ns) = ok manifest

abbrev check_manifest :
    {F : Type 0} → Result String (StructurizrManifest F) → Result ParseError (StructurizrManifest F)
check_manifest (err e) = err (unmarshal_failed e)
check_manifest (ok manifest) = check_nodes manifest manifest.deployment_nodes

-- ParseStructurizrManifest
unfoldable pub parse_structurizr_manifest :
    {F Bytes : Type 0}
    → (Bytes → Result String (StructurizrManifest F))
    → Bytes
    → Result ParseError (StructurizrManifest F)
parse_structurizr_manifest unmarshal content = check_manifest (unmarshal content)
