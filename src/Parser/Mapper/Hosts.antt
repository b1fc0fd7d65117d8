-- ===== src/Parser/Mapper/Hosts.antt =====
-- What a mapped host or workload guarantees.
use infrastructure_managemen.Common.{
  String, ◌≡◌, refl, Bool, Option, none, some, [], ◌∷◌, ◌==◌, Result, ok, err, ◌>>=◌, if_both,
  subst,
}
use infrastructure_managemen.Common.Text.{trim_space}
use infrastructure_managemen.Common.Int.{ℤ}
use infrastructure_managemen.Common.Maps.{Map, lookup, IsMap, insert-IsMap}
use infrastructure_managemen.Parser.Domain.{DesiredHost, DesiredWorkload}
use infrastructure_managemen.Parser.Values.{Floats, Value}
use infrastructure_managemen.Parser.Manifest.{ContainerInstance, NodeFields}
use infrastructure_managemen.Parser.Validator.Laws.{
  IsCompleteHost, validate_host_iff, IsCompleteWorkload, validate_workload_iff,
}
use infrastructure_managemen.Parser.Mapper.{
  validated, map_host, finish_host, finish_workload, port_of, version_of, container_name,
  map_workload,
}
use infrastructure_managemen.Parser.Mapper.Fields.{
  MapError, get_required_string, get_required_bool, put_unless_empty, label, labels_loop,
  extract_labels, invalid_host, invalid_workload,
}

validated-eq-ok :
    {A : Type 0} (f : String → MapError) (o : Option String) (a : A) {b : A}
    → validated f o a ≡ ok b
    → (o ≡ none) × (a ≡ b)
unfolding validated
validated-eq-ok f none a h = (refl, cc)
validated-eq-ok f (some m) a h = absurd (cc)

-- Five results that do not depend on one another, and what is done with their values.
five-eq-ok :
    {E A B C D F G : Type 0} (a : Result E A) (b : Result E B) (c : Result E C) (d : Result E D)
    (e : Result E F) (k : A → B → C → D → F → Result E G) {g : G}
    → (a >>= λ x. b >>= λ y. c >>= λ z. d >>= λ u. e >>= λ v. k x y z u v) ≡ ok g
    → (x : A) × (y : B) × (z : C) × (u : D) × (v : F) × (a ≡ ok x)
      × (b ≡ ok y)
      × (c ≡ ok z)
      × (k x y z u v ≡ ok g)
five-eq-ok (err q) b c d e k h = absurd (cc)
five-eq-ok (ok x) (err q) c d e k h = absurd (cc)
five-eq-ok (ok x) (ok y) (err q) d e k h = absurd (cc)
five-eq-ok (ok x) (ok y) (ok z) (err q) e k h = absurd (cc)
five-eq-ok (ok x) (ok y) (ok z) (ok u) (err q) k h = absurd (cc)
five-eq-ok (ok x) (ok y) (ok z) (ok u) (ok v) k h = (x, y, z, u, v, refl, refl, refl, h)

put_unless_empty-IsMap :
    (key value : String) (m : Map String) → IsMap m → IsMap (put_unless_empty key value m)
unfolding put_unless_empty
put_unless_empty-IsMap key value m h =
    if_both IsMap (value == "") _ _ h (insert-IsMap key value m h)

module _ (floats : Floats) where
  open floats use {Float}

  label-IsMap :
      (key : String) (value : Value Float) (m : Map String)
      → IsMap m
      → IsMap (label floats key value m)
  unfolding label
  label-IsMap key value m h = if_both IsMap _ _ _ h (put_unless_empty-IsMap key _ m h)

  labels_loop-IsMap : (properties : Map (Value Float)) → IsMap (labels_loop floats properties)
  unfolding labels_loop
  labels_loop-IsMap [] = tt
  labels_loop-IsMap ((key, value) ∷ properties) =
      label-IsMap key value (labels_loop floats properties) (labels_loop-IsMap properties)

  extract_labels-IsMap :
      (properties : Map (Value Float)) (env managed_by purpose : String)
      → IsMap (extract_labels floats properties env managed_by purpose)
  unfolding extract_labels
  extract_labels-IsMap properties env managed_by purpose =
      put_unless_empty-IsMap "purpose" purpose _ (
        put_unless_empty-IsMap "managed_by" managed_by _
          (put_unless_empty-IsMap "env" env _ (labels_loop-IsMap properties)))

  -- What a mapped host guarantees before its workloads are added.
  pub record IsMapped (n : NodeFields Float) (h : DesiredHost) : Type 0 where
    pub complete : IsCompleteHost h
    pub labels : IsMap h.labels
    pub no_workloads : h.workloads ≡ []
    pub host_id : get_required_string floats n.properties "host_id" ≡ ok h.host_id
    pub fqdn : get_required_string floats n.properties "fqdn" ≡ ok h.fqdn

  finish_host-IsMapped :
      (n : NodeFields Float) (host_id fqdn env managed_by purpose : String)
      → get_required_string floats n.properties "host_id" ≡ ok host_id
      → get_required_string floats n.properties "fqdn" ≡ ok fqdn
      → (h : DesiredHost) → finish_host floats n host_id fqdn env managed_by purpose ≡ ok h
      → IsMapped n h
  unfolding finish_host
  finish_host-IsMapped n host_id fqdn env managed_by purpose p q h e =
      let (valid, same) = validated-eq-ok invalid_host _ _ e in
      subst (IsMapped n) same (record {
        complete = (validate_host_iff _).0 valid;
        labels = extract_labels-IsMap n.properties env managed_by purpose;
        no_workloads = refl;
        host_id = p;
        fqdn = q;
      })

  -- A node that becomes a host has the five required properties, of which the host's id and FQDN are
  -- two, none of them blank; the host has each label once and no workloads yet.
  pub map_host-IsMapped :
      (n : NodeFields Float) (h : DesiredHost) → map_host floats n ≡ ok h → IsMapped n h
  unfolding map_host
  map_host-IsMapped n h e =
      let (host_id, fqdn, env, managed_by, purpose, p, q, r, last) =
        five-eq-ok (get_required_string floats n.properties "host_id")
          (get_required_string floats n.properties "fqdn")
          (get_required_string floats n.properties "env")
          (get_required_string floats n.properties "managed_by")
          (get_required_string floats n.properties "purpose") (finish_host floats n) e in
      finish_host-IsMapped n host_id fqdn env managed_by purpose p q h last

  IsMappedWorkload : ContainerInstance Float → DesiredWorkload → Type 0
  IsMappedWorkload i w =
      IsCompleteWorkload w
      × (get_required_bool floats i.properties "enabled" ≡ ok w.enabled)
      × (get_required_string floats i.properties "deployment_mode" ≡ ok w.deployment_mode)

  finish_workload-IsComplete :
      (i : ContainerInstance Float) (name : String) (enabled : Bool) (mode : String)
      (port : Option ℤ) (version : Option String)
      → get_required_bool floats i.properties "enabled" ≡ ok enabled
      → get_required_string floats i.properties "deployment_mode" ≡ ok mode
      → (w : DesiredWorkload) → finish_workload floats i name enabled mode port version ≡ ok w
      → IsMappedWorkload i w
  unfolding finish_workload IsMappedWorkload
  finish_workload-IsComplete i name enabled mode port version p q w e =
      let (valid, same) = validated-eq-ok invalid_workload _ _ e in
      subst (IsMappedWorkload i) same ((validate_workload_iff _).0 valid, p, q)

  -- A mapped workload passes the validator, and its `enabled` and its mode are its properties.
  pub map_workload-IsComplete :
      (names : Map String) (i : ContainerInstance Float) (w : DesiredWorkload)
      → map_workload floats names i ≡ ok w
      → IsCompleteWorkload w
        × (get_required_bool floats i.properties "enabled" ≡ ok w.enabled)
        × (get_required_string floats i.properties "deployment_mode" ≡ ok w.deployment_mode)
  unfolding map_workload IsMappedWorkload
  map_workload-IsComplete names i w e =
      let (name, enabled, mode, port, version, p, q, r, last) =
        five-eq-ok
          (container_name floats (trim_space i.container_id)
            (lookup (trim_space i.container_id) names))
          (get_required_bool floats i.properties "enabled")
          (get_required_string floats i.properties "deployment_mode")
          (port_of floats (lookup "port" i.properties))
          (version_of floats (lookup "version" i.properties)) (finish_workload floats i) e in
      finish_workload-IsComplete i name enabled mode port version q r w last
