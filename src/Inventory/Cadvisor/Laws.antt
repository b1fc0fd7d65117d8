-- ===== src/Inventory/Cadvisor/Laws.antt =====
-- Which workloads a collection keeps of the containers that cAdvisor lists.
use mathlib.Core.List.{Memᴰ}
use infrastructure_managemen.Common.{
  String, ◌≡◌, refl, ap, sym, ◌∙◌, ◌⊎◌, inl, inr, Bool, true, false, not, List, [], ◌∷◌, ◌==◌,
  if_both, Bool-cases, All,
}
use infrastructure_managemen.Common.Text.{trim_space}
use infrastructure_managemen.Common.Paths.{trim_slashes}
use infrastructure_managemen.Common.Paths.Laws.{base-ne}
use infrastructure_managemen.Common.Order.{sort_by, insert_by}
use infrastructure_managemen.Common.Clock.{Time, zero_time}
use infrastructure_managemen.Inventory.Domain.{Workload}
use infrastructure_managemen.Inventory.Cadvisor.{
  ContainerInfo, ContainersResponse, source_name, pick_workload_id, name_or, pick_workload_name,
  pick_runtime, pick_last_seen, later, to_workload, is_root, normalize_loop, name_lt,
  normalize_containers, is_likely_system_workload, unless_system, without_system, filter_workloads,
}

module _ {A : Type 0} (less : A → A → Bool) where
  insert_by-Mem : (x y : A) (ys : List A) → ((x ≡ y) ⊎ Memᴰ x ys) → Memᴰ x (insert_by less y ys)
  unfolding insert_by
  insert_by-Mem x y [] (inl e) = Memᴰ.head e
  insert_by-Mem x y [] (inr p) = elim p [ ]
  insert_by-Mem x y (z ∷ zs) (inl e) =
      if_both (Memᴰ x) (less z y) _ _ (Memᴰ.tail (insert_by-Mem x y zs (inl e))) (Memᴰ.head e)
  insert_by-Mem x y (z ∷ zs) (inr (Memᴰ.head e)) =
      if_both (Memᴰ x) (less z y) _ _ (Memᴰ.head e) (Memᴰ.tail (Memᴰ.head e))
  insert_by-Mem x y (z ∷ zs) (inr (Memᴰ.tail q)) =
      if_both (Memᴰ x) (less z y) _ _ (Memᴰ.tail (insert_by-Mem x y zs (inr q)))
        (Memᴰ.tail (Memᴰ.tail q))

  -- Sorting loses nothing.
  sort_by-Mem : (x : A) (xs : List A) → Memᴰ x xs → Memᴰ x (sort_by less xs)
  unfolding sort_by
  sort_by-Mem x [] p = elim p [ ]
  sort_by-Mem x (y ∷ ys) (Memᴰ.head e) = insert_by-Mem x y (sort_by less ys) (inl e)
  sort_by-Mem x (y ∷ ys) (Memᴰ.tail p) =
      insert_by-Mem x y (sort_by less ys) (inr (sort_by-Mem x ys p))

-- A workload of cAdvisor with an identifier, a name and a runtime.
pub record IsIdentified (w : Workload) : Type 0 where
  pub id : (w.id == "") ≡ false
  pub name : (w.name == "") ≡ false
  pub runtime : (w.runtime == "") ≡ false
  pub source : w.source ≡ source_name

pick_workload_id-ne :
    (key : String) (aliases : List String) → (pick_workload_id key aliases == "") ≡ false
unfolding pick_workload_id
pick_workload_id-ne key [] = elim (Bool-cases (key == "")) [
  | inl e ↦ rw e refl
  | inr n ↦ rw (n, n) refl
]
pick_workload_id-ne key (alias ∷ aliases) = elim (Bool-cases (trim_space alias == "")) [
  | inl e ↦ rw e (pick_workload_id-ne key aliases)
  | inr n ↦ rw n n
]

name_or-ne : (s other : String) → (other == "") ≡ false → (name_or s other == "") ≡ false
unfolding name_or
name_or-ne s other h =
    if_both (λ (t : String). (t == "") ≡ false) (trim_slashes s == "") _ _ h
      (base-ne (trim_slashes s))

pick_workload_name-ne :
    (key : String) (aliases : List String) → (pick_workload_name key aliases == "") ≡ false
unfolding pick_workload_name
pick_workload_name-ne key [] = name_or-ne key "unknown" refl
pick_workload_name-ne key (alias ∷ aliases) =
    let rest = pick_workload_name-ne key aliases in
    if_both (λ (t : String). (t == "") ≡ false) (trim_space alias == "") _ _ rest
      (name_or-ne (trim_space alias) (pick_workload_name key aliases) rest)

pick_runtime-ne : (namespace : String) → (pick_runtime namespace == "") ≡ false
unfolding pick_runtime
pick_runtime-ne namespace = elim (Bool-cases (trim_space namespace == "")) [
  | inl e ↦ rw e refl
  | inr n ↦ rw n n
]

to_workload-IsIdentified : (name : String) (c : ContainerInfo) → IsIdentified (to_workload name c)
unfolding to_workload
to_workload-IsIdentified name c = record {
  id = pick_workload_id-ne name c.aliases;
  name = pick_workload_name-ne name c.aliases;
  runtime = pick_runtime-ne c.namespace;
  source = refl;
}

normalize_loop-IsIdentified :
    (latest : Time) (cs : List ContainerInfo) → All IsIdentified (normalize_loop latest cs).0
unfolding normalize_loop
normalize_loop-IsIdentified latest [] = tt
normalize_loop-IsIdentified latest (c ∷ cs) =
    if_both (λ (r : List Workload × Time). All IsIdentified r.0) (is_root (trim_space c.name)) _ _
      (normalize_loop-IsIdentified latest cs)
      (
        to_workload-IsIdentified (trim_space c.name) c,
        normalize_loop-IsIdentified (later (pick_last_seen c.stats) latest) cs,
      )

-- The workload of a container of the response.
abbrev pub workload_of : ContainerInfo → Workload
workload_of c = to_workload (trim_space c.name) c

normalize_loop-Mem :
    (latest : Time) (c : ContainerInfo) (cs : List ContainerInfo)
    → is_root (trim_space c.name) ≡ false
    → Memᴰ c cs
    → Memᴰ (workload_of c) (normalize_loop latest cs).0
unfolding normalize_loop
normalize_loop-Mem latest c [] named p = elim p [ ]
normalize_loop-Mem latest c (d ∷ ds) named (Memᴰ.head e) =
    rw (ap (λ (x : ContainerInfo). is_root (trim_space x.name)) (sym e) ∙ named)
      (Memᴰ.head (ap workload_of e))
normalize_loop-Mem latest c (d ∷ ds) named (Memᴰ.tail p) =
    if_both (λ (r : List Workload × Time). Memᴰ (workload_of c) r.0) (is_root (trim_space d.name)) _
      _ (normalize_loop-Mem latest c ds named p)
      (Memᴰ.tail (normalize_loop-Mem (later (pick_last_seen d.stats) latest) c ds named p))

-- Whether a workload passes the filter.
abbrev pub passes : Bool → Workload → Bool
passes true w = true
passes false w = not (is_likely_system_workload w)

unless_system-All :
    (P : Workload → Type 0) (b : Bool) (w : Workload) (rest : List Workload)
    → (b ≡ false → P w)
    → All P rest
    → All P (unless_system b w rest)
unless_system-All P true w rest p ps = ps
unless_system-All P false w rest p ps = (p refl, ps)

unless_system-Mem :
    (b : Bool) (x w : Workload) (rest : List Workload)
    → (x ≡ w) × (b ≡ false) ⊎ Memᴰ x rest
    → Memᴰ x (unless_system b w rest)
unless_system-Mem true x w rest (inl (e, h)) = absurd (cc)
unless_system-Mem true x w rest (inr p) = p
unless_system-Mem false x w rest (inl (e, h)) = Memᴰ.head e
unless_system-Mem false x w rest (inr p) = Memᴰ.tail p

not_lem : (b : Bool) → not b ≡ true → b ≡ false
not_lem true h = absurd (cc)
not_lem false h = refl

filter_workloads-All :
    (P : Workload → Type 0) (b : Bool) (ws : List Workload)
    → All P ws
    → All (λ (w : Workload). P w × (passes b w ≡ true)) (filter_workloads ws b)
unfolding filter_workloads without_system
filter_workloads-All P true [] ps = tt
filter_workloads-All P true (w ∷ ws) ps = ((ps.0, refl), filter_workloads-All P true ws ps.1)
filter_workloads-All P false [] ps = tt
filter_workloads-All P false (w ∷ ws) ps =
    unless_system-All (λ (w : Workload). P w × (passes false w ≡ true))
      (is_likely_system_workload w) w _ (λ h. (ps.0, rw h refl))
      (filter_workloads-All P false ws ps.1)

filter_workloads-Mem :
    (b : Bool) (x : Workload) (ws : List Workload)
    → passes b x ≡ true
    → Memᴰ x ws
    → Memᴰ x (filter_workloads ws b)
unfolding filter_workloads without_system
filter_workloads-Mem true x ws h p = p
filter_workloads-Mem false x [] h p = elim p [ ]
filter_workloads-Mem false x (w ∷ ws) h (Memᴰ.head e) =
    unless_system-Mem (is_likely_system_workload w) x w _
      (inl (e, ap is_likely_system_workload (sym e) ∙ not_lem (is_likely_system_workload x) h))
filter_workloads-Mem false x (w ∷ ws) h (Memᴰ.tail p) =
    unless_system-Mem (is_likely_system_workload w) x w _
      (inr (filter_workloads-Mem false x ws h p))

-- What CollectHost makes of the containers of a response.
pub record IsCollected (include_system : Bool) (containers : ContainersResponse)
    (ws : List Workload) : Type 0 where
  pub sound : All (λ (w : Workload). IsIdentified w × (passes include_system w ≡ true)) ws
  pub complete :
      (c : ContainerInfo)
      → Memᴰ c containers
      → is_root (trim_space c.name) ≡ false
      → passes include_system (workload_of c) ≡ true
      → Memᴰ (workload_of c) ws

-- Of whatever cAdvisor lists, in any order, every workload that is kept has an identifier, a name, a runtime and
-- cAdvisor as its source, and none is a system workload unless those are included; and every container
-- other than the root whose workload is not left out for that reason has its workload in the result.
pub filter_workloads-normalize_containers :
    (containers : ContainersResponse) (include_system : Bool)
    → IsCollected include_system containers
        (filter_workloads (normalize_containers containers).0 include_system)
unfolding normalize_containers
filter_workloads-normalize_containers containers include_system = record {
  sound =
      filter_workloads-All IsIdentified include_system _
        (normalize_loop-IsIdentified zero_time (sort_by name_lt containers));
  complete = λ c listed named kept. filter_workloads-Mem include_system (workload_of c) _ kept (
      normalize_loop-Mem zero_time c (sort_by name_lt containers) named
        (sort_by-Mem name_lt c containers listed));
}
