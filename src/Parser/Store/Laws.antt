-- ===== src/Parser/Store/Laws.antt =====
-- What a reader gets after a snapshot was put in the store.
use infrastructure_managemen.Common.{
  String, ◌≡◌, refl, ap, subst, ◌∙◌, inl, inr, Option, none, some, List, [], ◌∷◌, arith, ◌==◌,
  if◌then◌else◌, Option-cases, All,
}
use infrastructure_managemen.Common.Maps.{Map, lookup, lookup-insert}
use infrastructure_managemen.Parser.Domain.{DesiredHost, Snapshot, clone_host, clone_snapshot}
use infrastructure_managemen.Parser.Domain.Clones.{HasMap, clone_host-eq, clone_snapshot-eq}
use infrastructure_managemen.Parser.Store.{
  Store, index_loop, replace, get_snapshot, get_host, clone_found, is_ready,
}

abbrev or_else : Option DesiredHost → Option DesiredHost → Option DesiredHost
or_else none other = other
or_else (some host) other = some host

-- The last host of a list with an id.
pub last_host_with_id : String → List DesiredHost → Option DesiredHost
last_host_with_id id [] = none
last_host_with_id id (h ∷ hs) =
    or_else (last_host_with_id id hs) (if h.host_id == id then some h else none)

or_else_assoc : (a b c : Option DesiredHost) → or_else a (or_else b c) ≡ or_else (or_else a b) c
or_else_assoc none b c = refl
or_else_assoc (some h) b c = refl

lookup-index_loop :
    (id : String) (hs : List DesiredHost) (m : Map DesiredHost)
    → All HasMap hs
    → lookup id (index_loop m hs) ≡ or_else (last_host_with_id id hs) (lookup id m)
unfolding index_loop last_host_with_id
lookup-index_loop id [] m maps = refl
lookup-index_loop id (h ∷ hs) m maps =
    lookup-index_loop id hs _ maps.1
    ∙ ap (or_else (last_host_with_id id hs))
        (ground (arith, lookup-insert h.host_id id (clone_host h) m, clone_host-eq h maps.0))
    ∙ or_else_assoc (last_host_with_id id hs) (if h.host_id == id then some h else none)
        (lookup id m)

last_host_with_id-HasMap :
    (id : String) (hs : List DesiredHost) (h : DesiredHost)
    → All HasMap hs
    → last_host_with_id id hs ≡ some h
    → HasMap h
unfolding last_host_with_id
last_host_with_id-HasMap id [] h maps e = cc
last_host_with_id-HasMap id (x ∷ hs) h maps e = elim (Option-cases (last_host_with_id id hs)) [
  | inl missing ↦ let same : x ≡ h = ground arith in subst HasMap same maps.0
  | inr (y, found) ↦ last_host_with_id-HasMap id hs h maps.1 (ground arith)
]

or_else-none : (a : Option DesiredHost) → or_else a none ≡ a
or_else-none none = refl
or_else-none (some h) = refl

clone_found-eq :
    (o : Option DesiredHost) → ((h : DesiredHost) → o ≡ some h → HasMap h) → clone_found o ≡ o
clone_found-eq none maps = refl
clone_found-eq (some h) maps = ap some (clone_host-eq h (maps h refl))

-- If the maps of every host of a snapshot (labels) have each key once, then after Replace
-- GetSnapshot returns the snapshot itself, GetHost the last of its hosts with the id, and the
-- readiness is what it was.
pub get_snapshot-replace :
    (s : Store) (snapshot : Snapshot) (id : String)
    → All HasMap snapshot.state.hosts
    → (get_snapshot (replace snapshot s) ≡ snapshot)
      × (get_host (replace snapshot s) id ≡ last_host_with_id id snapshot.state.hosts)
      × (is_ready (replace snapshot s) ≡ is_ready s)
unfolding get_snapshot get_host replace is_ready lookup
get_snapshot-replace s snapshot id maps = (
  ap clone_snapshot (clone_snapshot-eq snapshot maps) ∙ clone_snapshot-eq snapshot maps,
  ap (λ (t : Snapshot). clone_found (lookup id (index_loop [] t.state.hosts)))
        (clone_snapshot-eq snapshot maps)
      ∙ ap clone_found (found ∙ or_else-none _)
      ∙ clone_found-eq _ (λ h. last_host_with_id-HasMap id snapshot.state.hosts h maps),
  refl,
)
  where
    found :
        lookup id (index_loop [] snapshot.state.hosts)
        ≡ or_else
            (last_host_with_id id snapshot.state.hosts)
            (lookup id (let m : Map DesiredHost = [] in m))
    found = lookup-index_loop id snapshot.state.hosts [] maps
