-- ===== src/Parser/Load/Ids.antt =====
-- The ids of the hosts that a load keeps.
use infrastructure_managemen.Common.{
  ℕ, String, ◌≡◌, refl, subst, false, Option, none, some, List, [], ◌∷◌, arith, ◌==◌, eq_iff,
  if_both, Result, All,
}
use infrastructure_managemen.Common.Clock.{Time}
use infrastructure_managemen.Common.Maps.{Map, Fresh, IsMap, without, insert, insert-IsMap}
use infrastructure_managemen.Common.Order.{sort_by, insert_by}
use infrastructure_managemen.Parser.Domain.{DesiredHost, clone_host}
use infrastructure_managemen.Parser.Values.{Floats}
use infrastructure_managemen.Parser.Manifest.{StructurizrManifest}
use infrastructure_managemen.Parser.Mapper.{MapResult}
use infrastructure_managemen.Parser.Load.{
  Progress, start, put_hosts, add_file, map_values, host_lt, build_snapshot, map_file, load_files,
  load_desired_state,
}

-- A host has another id.
abbrev Differs : String → DesiredHost → Type 0
Differs id h = (id == h.host_id) ≡ false

-- No two hosts have the same id.
pub AreUnique : List DesiredHost → Type 0
AreUnique [] = Unit
AreUnique (h ∷ hs) = All (Differs h.host_id) hs × AreUnique hs

Differs-sym : (g h : DesiredHost) → Differs g.host_id h → Differs h.host_id g
Differs-sym g h d = ground (arith, eq_iff g.host_id h.host_id, eq_iff h.host_id g.host_id)

insert_by-Differs :
    (id : String) (h : DesiredHost) (hs : List DesiredHost)
    → Differs id h
    → All (Differs id) hs
    → All (Differs id) (insert_by host_lt h hs)
unfolding insert_by
insert_by-Differs id h [] d ds = (d, tt)
insert_by-Differs id h (x ∷ xs) d ds =
    if_both (All (Differs id)) (host_lt x h) _ _ (ds.0, insert_by-Differs id h xs d ds.1) (d, ds)

sort_by-Differs :
    (id : String) (hs : List DesiredHost)
    → All (Differs id) hs
    → All (Differs id) (sort_by host_lt hs)
unfolding sort_by
sort_by-Differs id [] ds = tt
sort_by-Differs id (h ∷ hs) ds =
    insert_by-Differs id h (sort_by host_lt hs) ds.0 (sort_by-Differs id hs ds.1)

insert_by-AreUnique :
    (h : DesiredHost) (hs : List DesiredHost)
    → All (Differs h.host_id) hs
    → AreUnique hs
    → AreUnique (insert_by host_lt h hs)
unfolding insert_by AreUnique
insert_by-AreUnique h [] d u = (tt, tt)
insert_by-AreUnique h (x ∷ xs) d u =
    if_both AreUnique (host_lt x h) _ _
      (insert_by-Differs x.host_id h xs (Differs-sym h x d.0) u.0, insert_by-AreUnique h xs d.1 u.1)
      (d, u)

sort_by-AreUnique : (hs : List DesiredHost) → AreUnique hs → AreUnique (sort_by host_lt hs)
unfolding sort_by AreUnique
sort_by-AreUnique [] u = tt
sort_by-AreUnique (h ∷ hs) u =
    insert_by-AreUnique h (sort_by host_lt hs) (sort_by-Differs h.host_id hs u.0)
      (sort_by-AreUnique hs u.1)

-- Every host stands under its own id.
IsKeyed : Map DesiredHost → Type 0
IsKeyed m = All (λ (e : String × DesiredHost). e.0 ≡ e.1.host_id) m

without-IsKeyed : (k : String) (m : Map DesiredHost) → IsKeyed m → IsKeyed (without k m)
unfolding without IsKeyed
without-IsKeyed k [] g = tt
without-IsKeyed k ((j, h) ∷ m) g =
    if_both IsKeyed (j == k) _ _ (without-IsKeyed k m g.1) (g.0, without-IsKeyed k m g.1)

put_hosts-IsKeyed :
    (hs : List DesiredHost) (m : Map DesiredHost)
    → IsKeyed m × IsMap m
    → IsKeyed (put_hosts hs m) × IsMap (put_hosts hs m)
unfolding put_hosts IsKeyed
put_hosts-IsKeyed [] m g = g
put_hosts-IsKeyed (h ∷ hs) m g =
    put_hosts-IsKeyed hs (insert h.host_id h m)
      (unfold insert in (refl, without-IsKeyed h.host_id m g.0), insert-IsMap h.host_id h m g.1)

map_values-Differs :
    (g : DesiredHost) (m : Map DesiredHost)
    → IsKeyed m
    → Fresh g.host_id m
    → All (Differs g.host_id) (map_values m)
unfolding map_values IsKeyed clone_host
map_values-Differs g [] keyed fresh = tt
map_values-Differs g ((k, h) ∷ m) keyed fresh =
    let same : k ≡ h.host_id = keyed.0 in
    let other : (k == g.host_id) ≡ false = fresh.0 in
    (Differs-sym h g (rw (← same) other), map_values-Differs g m keyed.1 fresh.1)

map_values-AreUnique : (m : Map DesiredHost) → IsKeyed m → IsMap m → AreUnique (map_values m)
unfolding map_values IsKeyed AreUnique clone_host
map_values-AreUnique [] keyed u = tt
map_values-AreUnique ((k, h) ∷ m) keyed u =
    let same : k ≡ h.host_id = keyed.0 in
    (
      map_values-Differs h m keyed.1 (subst (λ (j : String). Fresh j m) same u.0),
      map_values-AreUnique m keyed.1 u.1,
    )

add_file-IsKeyed :
    (r : Option MapResult) (p : Progress)
    → IsKeyed p.hosts_by_id × IsMap p.hosts_by_id
    → IsKeyed (add_file r p).hosts_by_id × IsMap (add_file r p).hosts_by_id
unfolding add_file
add_file-IsKeyed none p g = g
add_file-IsKeyed (some r) p g = put_hosts-IsKeyed r.hosts p.hosts_by_id g

module _ (floats : Floats) {Bytes : Type 0} (load_file : String → Result String Bytes)
    (unmarshal : Bytes → Result String (StructurizrManifest floats.Float)) where
  load_files-IsKeyed :
      (files : List String) (p : Progress)
      → IsKeyed p.hosts_by_id × IsMap p.hosts_by_id
      → IsKeyed (load_files floats load_file unmarshal files p).hosts_by_id
        × IsMap (load_files floats load_file unmarshal files p).hosts_by_id
  unfolding load_files
  load_files-IsKeyed [] p g = g
  load_files-IsKeyed (file ∷ files) p g =
      load_files-IsKeyed files _ (add_file-IsKeyed (map_file floats load_file unmarshal file) p g)

  -- Whatever hosts the files define, also under the same id, no two hosts of the loaded snapshot have the
  -- same id.
  pub load_desired_state-AreUnique :
      (now : Time) (files : List String) (mode path : String) (ignored : ℕ)
      → AreUnique
          (load_desired_state floats load_file unmarshal now files mode path ignored).state.hosts
  unfolding load_desired_state build_snapshot IsKeyed
  load_desired_state-AreUnique now files mode path ignored =
      let (keyed, u) = load_files-IsKeyed files start (tt, tt) in
      sort_by-AreUnique _ (map_values-AreUnique _ keyed u)
