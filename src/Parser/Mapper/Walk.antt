-- ===== src/Parser/Mapper/Walk.antt =====
-- What the walk over a manifest's nodes keeps.
use infrastructure_managemen.Common.{
  ℕ, ◌+◌, String, ◌≡◌, refl, ap, sym, subst, List, [], ◌∷◌, ◌++◌, arith, Result, ok, err, All,
  All-append, length, length-append,
}
use infrastructure_managemen.Common.Maps.{Map, IsMap}
use infrastructure_managemen.Parser.Domain.{DesiredHost, DesiredWorkload}
use infrastructure_managemen.Parser.Values.{Floats}
use infrastructure_managemen.Parser.Manifest.{
  ContainerInstance, NodeFields, DeploymentNode, node, Nodes, nil, cons, StructurizrManifest,
}
use infrastructure_managemen.Parser.Validator.Laws.{IsCompleteHost, IsCompleteWorkload}
use infrastructure_managemen.Parser.Mapper.{
  MapResult, add_warning, map_host, map_workload, add_workload, map_instances, add_mapped, visit,
  visit_node, walk, walk_all, map_manifest, build_container_map,
}
use infrastructure_managemen.Parser.Mapper.Fields.{MapError}
use infrastructure_managemen.Parser.Mapper.Hosts.{
  IsMapped, map_host-IsMapped, map_workload-IsComplete,
}

-- A host that passes the validator with all its workloads, with each label once.
pub record IsGoodHost (h : DesiredHost) : Type 0 where
  pub complete : IsCompleteHost h
  pub labels : IsMap h.labels
  pub workloads : All IsCompleteWorkload h.workloads

-- The workloads of all hosts.
unfoldable pub workloads_of : List DesiredHost → ℕ
workloads_of [] = 0
workloads_of (h ∷ hs) = length h.workloads + workloads_of hs

workloads_of-append :
    (hs ks : List DesiredHost) → workloads_of (hs ++ ks) ≡ workloads_of hs + workloads_of ks
unfolding workloads_of
workloads_of-append [] ks = omega arith
workloads_of-append (h ∷ hs) ks =
    let rest : workloads_of (hs ++ ks) ≡ workloads_of hs + workloads_of ks =
      workloads_of-append hs ks in
    omega arith

-- The hosts of a result are good, and its counter is the number of their workloads.
pub record IsWalked (r : MapResult) : Type 0 where
  pub hosts : All IsGoodHost r.hosts
  pub counted : r.workloads ≡ workloads_of r.hosts

-- The same while a host at hand is not yet in the list.
record IsPending (s : DesiredHost × MapResult) : Type 0 where
  host : IsGoodHost s.0
  hosts : All IsGoodHost s.1.hosts
  counted : s.1.workloads ≡ workloads_of s.1.hosts + length s.0.workloads

module _ (floats : Floats) where
  open floats use {Float}

  add_workload-IsPending :
      (file node_id instance_id : String) (w : Result MapError DesiredWorkload) (h : DesiredHost)
      (r : MapResult)
      → ((x : DesiredWorkload) → w ≡ ok x → IsCompleteWorkload x)
      → IsPending (h, r)
      → IsPending (add_workload floats file node_id instance_id w (h, r))
  unfolding add_workload add_warning
  add_workload-IsPending file node_id instance_id (err e) h r good p = record {
    host = p.host;
    hosts = p.hosts;
    counted = p.counted;
  }
  add_workload-IsPending file node_id instance_id (ok x) h r good p = record {
    host = record {
      complete = record {
        host_id = p.host.complete.host_id;
        fqdn = p.host.complete.fqdn;
        env = p.host.complete.env;
        managed_by = p.host.complete.managed_by;
        purpose = p.host.complete.purpose;
      };
      labels = p.host.labels;
      workloads =
          All-append IsCompleteWorkload h.workloads (x ∷ []) p.host.workloads (good x refl, tt);
    };
    hosts = p.hosts;
    counted =
        let before : r.workloads ≡ workloads_of r.hosts + length h.workloads = p.counted in
        let longer : length (h.workloads ++ x ∷ []) ≡ length h.workloads + length (x ∷ []) =
          length-append h.workloads (x ∷ []) in
        ground arith;
  }

  map_instances-IsPending :
      (file node_id : String) (names : Map String) (is : List (ContainerInstance Float))
      (s : DesiredHost × MapResult)
      → IsPending s
      → IsPending (map_instances floats file node_id names is s)
  unfolding map_instances
  map_instances-IsPending file node_id names [] s p = p
  map_instances-IsPending file node_id names (i ∷ is) (h, r) p =
      map_instances-IsPending file node_id names is _ (
        add_workload-IsPending file node_id i.id (map_workload floats names i) h r
          (λ w e. (map_workload-IsComplete floats names i w e).0) p)

  add_mapped-IsWalked : (s : DesiredHost × MapResult) → IsPending s → IsWalked (add_mapped floats s)
  unfolding add_mapped workloads_of
  add_mapped-IsWalked (h, r) p = record {
    hosts = All-append IsGoodHost r.hosts (h ∷ []) p.hosts (p.host, tt);
    counted =
        let before : r.workloads ≡ workloads_of r.hosts + length h.workloads = p.counted in
        let longer : workloads_of (r.hosts ++ h ∷ [])
            ≡ workloads_of r.hosts + workloads_of (h ∷ []) =
          workloads_of-append r.hosts (h ∷ []) in
        ground arith;
  }

  visit-IsWalked :
      (file : String) (names : Map String) (n : NodeFields Float) (m : Result MapError DesiredHost)
      (r : MapResult)
      → ((h : DesiredHost) → m ≡ ok h → IsMapped floats n h)
      → IsWalked r
      → IsWalked (visit floats file names n m r)
  unfolding visit add_warning
  visit-IsWalked file names n (err e) r mapped w = record { hosts = w.hosts; counted = w.counted }
  visit-IsWalked file names n (ok h) r mapped w =
      let m : IsMapped floats n h = mapped h refl in
      let empty : h.workloads ≡ [] = m.no_workloads in
      add_mapped-IsWalked _ (
        map_instances-IsPending file n.id names n.container_instances (h, r)
          (record {
            host = record {
              complete = m.complete;
              labels = m.labels;
              workloads = subst (All IsCompleteWorkload) (sym empty) tt;
            };
            hosts = w.hosts;
            counted =
                let before : r.workloads ≡ workloads_of r.hosts = w.counted in
                let none_yet : length h.workloads ≡ 0 = ap length empty in omega arith;
          }))

mutual
  unfolding walk walk_all

  walk-IsWalked :
      {F : Type 0} (f : NodeFields F → MapResult → MapResult)
      → ((n : NodeFields F) (r : MapResult) → IsWalked r → IsWalked (f n r))
      → (d : DeploymentNode F) (r : MapResult) → IsWalked r
      → IsWalked (walk f d r)
  walk-IsWalked f step (node n children nested) r w =
      walk_all-IsWalked f step nested _ (walk_all-IsWalked f step children _ (step n r w))

  walk_all-IsWalked :
      {F : Type 0} (f : NodeFields F → MapResult → MapResult)
      → ((n : NodeFields F) (r : MapResult) → IsWalked r → IsWalked (f n r))
      → (ds : Nodes F) (r : MapResult) → IsWalked r
      → IsWalked (walk_all f ds r)
  walk_all-IsWalked f step nil r w = w
  walk_all-IsWalked f step (cons d ds) r w =
      walk_all-IsWalked f step ds _ (walk-IsWalked f step d r w)

-- Whatever the manifest, every host of MapManifest's result passes the validator with all its workloads
-- and has each label once, and the counter of workloads is the number of the hosts' workloads.
pub map_manifest-IsWalked :
    (floats : Floats) (manifest : StructurizrManifest floats.Float) (file : String)
    → IsWalked (map_manifest floats manifest file)
unfolding map_manifest visit_node workloads_of
map_manifest-IsWalked floats manifest file =
    walk_all-IsWalked _
      (λ n r.
        visit-IsWalked floats file (build_container_map manifest.software_systems []) n
          (map_host floats n) r (map_host-IsMapped floats n))
      manifest.deployment_nodes _ (record { hosts = tt; counted = refl })
