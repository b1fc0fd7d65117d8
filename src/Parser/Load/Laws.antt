-- ===== src/Parser/Load/Laws.antt =====
-- What a load gives, whatever the files hold.
use infrastructure_managemen.Common.{
  ℕ, ◌+◌, ◌<◌, String, ◌≡◌, ◌↔◌, refl, ap, subst, sym, ok, err, true, Option, none, some, List, [],
  ◌∷◌, arith, ◌==◌, if_both, Result, All, length,
}
use infrastructure_managemen.Common.Clock.{Time}
use infrastructure_managemen.Common.Maps.{Map, without, insert}
use infrastructure_managemen.Common.Order.{sort_by, insert_by}
use infrastructure_managemen.Parser.Domain.{DesiredHost, Snapshot}
use infrastructure_managemen.Parser.Domain.Clones.{HasMap, clone_host-eq}
use infrastructure_managemen.Parser.Values.{Floats}
use infrastructure_managemen.Parser.Manifest.{
  StructurizrManifest, ParseError, parse_structurizr_manifest,
}
use infrastructure_managemen.Parser.Mapper.{MapResult, map_manifest}
use infrastructure_managemen.Parser.Mapper.Walk.{
  IsGoodHost, IsWalked, map_manifest-IsWalked, workloads_of,
}
use infrastructure_managemen.Parser.Store.{new_store, set_ready, is_ready, get_snapshot, get_host}
use infrastructure_managemen.Parser.Store.Laws.{last_host_with_id, get_snapshot-replace}
use infrastructure_managemen.Parser.Load.{
  Progress, start, put_hosts, add_file, map_values, host_lt, count_workloads, build_snapshot,
  map_parsed, parse_loaded, map_file, load_files, load_desired_state, serve,
}

IsGood : Map DesiredHost → Type 0
IsGood m = All (λ (e : String × DesiredHost). IsGoodHost e.1) m

without-IsGood : (k : String) (m : Map DesiredHost) → IsGood m → IsGood (without k m)
unfolding without IsGood
without-IsGood k [] g = tt
without-IsGood k ((j, h) ∷ m) g =
    if_both IsGood (j == k) _ _ (without-IsGood k m g.1) (g.0, without-IsGood k m g.1)

put_hosts-IsGood :
    (hs : List DesiredHost) (m : Map DesiredHost)
    → All IsGoodHost hs
    → IsGood m
    → IsGood (put_hosts hs m)
unfolding put_hosts insert IsGood
put_hosts-IsGood [] m gs g = g
put_hosts-IsGood (h ∷ hs) m gs g = put_hosts-IsGood hs _ gs.1 (gs.0, without-IsGood h.host_id m g)

map_values-good : (m : Map DesiredHost) → IsGood m → All IsGoodHost (map_values m)
unfolding map_values IsGood
map_values-good [] g = tt
map_values-good ((k, h) ∷ m) g =
    (subst IsGoodHost (sym (clone_host-eq h g.0.labels)) g.0, map_values-good m g.1)

insert_by-All :
    (h : DesiredHost) (hs : List DesiredHost)
    → IsGoodHost h
    → All IsGoodHost hs
    → All IsGoodHost (insert_by host_lt h hs)
unfolding insert_by
insert_by-All h [] g gs = (g, tt)
insert_by-All h (x ∷ xs) g gs =
    if_both (All IsGoodHost) (host_lt x h) _ _ (gs.0, insert_by-All h xs g gs.1) (g, gs)

sort_by-All : (hs : List DesiredHost) → All IsGoodHost hs → All IsGoodHost (sort_by host_lt hs)
unfolding sort_by
sort_by-All [] gs = tt
sort_by-All (h ∷ hs) gs = insert_by-All h (sort_by host_lt hs) gs.0 (sort_by-All hs gs.1)

count_workloads-eq : (hs : List DesiredHost) → count_workloads hs ≡ workloads_of hs
unfolding count_workloads workloads_of
count_workloads-eq [] = refl
count_workloads-eq (h ∷ hs) = ap (λ (n : ℕ). length h.workloads + n) (count_workloads-eq hs)

-- The files so far are those that were loaded and those that were broken, and the hosts are good.
record IsProgress (files : ℕ) (p : Progress) : Type 0 where
  counted : p.loaded_files + p.broken_files ≡ files
  hosts : IsGood p.hosts_by_id

add_file-IsProgress :
    (files : ℕ) (r : Option MapResult) (p : Progress)
    → ((x : MapResult) → r ≡ some x → IsWalked x)
    → IsProgress files p
    → IsProgress (files + 1) (add_file r p)
unfolding add_file
add_file-IsProgress files none p good g = record {
  counted = let c = g.counted in ground arith;
  hosts = g.hosts;
}
add_file-IsProgress files (some r) p good g = record {
  counted = let c = g.counted in ground arith;
  hosts = put_hosts-IsGood r.hosts p.hosts_by_id (good r refl).hosts g.hosts;
}

have_maps : (hs : List DesiredHost) → All IsGoodHost hs → All HasMap hs
have_maps [] gs = tt
have_maps (h ∷ hs) gs = (gs.0.labels, have_maps hs gs.1)

-- What a snapshot of a load says of the files it was given.
pub record IsLoaded (json_files ignored : ℕ) (s : Snapshot) : Type 0 where
  pub files : s.metadata.files_loaded + s.metadata.files_broken ≡ json_files
  pub total : s.metadata.files_total ≡ json_files + ignored
  pub hosts : All IsGoodHost s.state.hosts
  pub hosts_total : s.metadata.hosts_total ≡ length s.state.hosts
  pub workloads_total : s.metadata.workloads_total ≡ workloads_of s.state.hosts
  pub ready : (s.metadata.ready ≡ true) ↔ (0 < s.metadata.files_loaded)

build_snapshot-IsLoaded :
    (now : Time) (mode path : String) (json_files ignored : ℕ) (p : Progress)
    → IsProgress json_files p
    → IsLoaded json_files ignored (build_snapshot now mode path json_files ignored p)
unfolding build_snapshot
build_snapshot-IsLoaded now mode path json_files ignored p g = record {
  files = g.counted;
  total = refl;
  hosts = sort_by-All (map_values p.hosts_by_id) (map_values-good p.hosts_by_id g.hosts);
  hosts_total = refl;
  workloads_total = count_workloads-eq _;
  ready = (λ e. ground arith, λ e. ground arith);
}

module _ (floats : Floats) {Bytes : Type 0} (load_file : String → Result String Bytes)
    (unmarshal : Bytes → Result String (StructurizrManifest floats.Float)) where
  map_parsed-IsWalked :
      (file : String) (m : Result ParseError (StructurizrManifest floats.Float)) (r : MapResult)
      → map_parsed floats load_file unmarshal file m ≡ some r
      → IsWalked r
  map_parsed-IsWalked file (err e) r h = absurd (cc)
  map_parsed-IsWalked file (ok manifest) r h =
      let same : map_manifest floats manifest file ≡ r = cc in
      subst IsWalked same (map_manifest-IsWalked floats manifest file)

  parse_loaded-IsWalked :
      (file : String) (l : Result String Bytes) (r : MapResult)
      → parse_loaded floats load_file unmarshal file l ≡ some r
      → IsWalked r
  parse_loaded-IsWalked file (err e) r h = absurd (cc)
  parse_loaded-IsWalked file (ok content) r h =
      map_parsed-IsWalked file (parse_structurizr_manifest unmarshal content) r h

  map_file-IsWalked :
      (file : String) (r : MapResult)
      → map_file floats load_file unmarshal file ≡ some r
      → IsWalked r
  unfolding map_file
  map_file-IsWalked file r e = parse_loaded-IsWalked file (load_file file) r e

  load_files-IsProgress :
      (done : ℕ) (files : List String) (p : Progress)
      → IsProgress done p
      → IsProgress (done + length files) (load_files floats load_file unmarshal files p)
  unfolding load_files
  load_files-IsProgress done [] p g = subst (λ (n : ℕ). IsProgress n p) (omega arith) g
  load_files-IsProgress done (file ∷ files) p g =
      subst (λ (n : ℕ). IsProgress n (load_files floats load_file unmarshal (file ∷ files) p))
        (omega arith)
        (load_files-IsProgress (done + 1) files _
          (add_file-IsProgress done _ p (map_file-IsWalked file) g))

  -- Whatever the files hold, the snapshot's loaded and broken files make up the files given, its total adds
  -- the ignored ones, its counts of hosts and workloads are those of its hosts, every host passes the
  -- validator with all its workloads, and the snapshot is ready exactly when a file was loaded.
  pub load_desired_state-IsLoaded :
      (now : Time) (files : List String) (mode path : String) (ignored : ℕ)
      → IsLoaded
          (length files)
          ignored
          (load_desired_state floats load_file unmarshal now files mode path ignored)
  unfolding load_desired_state IsGood
  load_desired_state-IsLoaded now files mode path ignored =
      build_snapshot-IsLoaded now mode path (length files) ignored _ (
        subst (λ (n : ℕ). IsProgress n (load_files floats load_file unmarshal files start))
          (omega arith)
          (load_files-IsProgress 0 files start (record { counted = refl; hosts = tt })))

  -- The store that Run serves is ready exactly when a file was loaded, and a reader of it gets the loaded
  -- snapshot, and for an id the last of the snapshot's hosts with it.
  pub get_snapshot-serve :
      (now : Time) (files : List String) (mode path : String) (ignored : ℕ) (id : String)
      → let served = serve floats load_file unmarshal now files mode path ignored in
        let loaded = load_desired_state floats load_file unmarshal now files mode path ignored in
        ((is_ready served ≡ true) ↔ (0 < loaded.metadata.files_loaded))
        × (get_snapshot served ≡ loaded)
        × (get_host served id ≡ last_host_with_id id loaded.state.hosts)
  unfolding serve set_ready is_ready get_snapshot get_host
  get_snapshot-serve now files mode path ignored id =
      let snapshot = load_desired_state floats load_file unmarshal now files mode path ignored in
      let l = load_desired_state-IsLoaded now files mode path ignored in
      let (same, found, _) =
        get_snapshot-replace new_store snapshot id (have_maps snapshot.state.hosts l.hosts) in
      (l.ready, same, found)
