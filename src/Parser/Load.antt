-- ===== src/Parser/Load.antt =====
-- ParserSvc/internal/app/app.go: loadDesiredState, and what Run does with its snapshot. Reading a file and
-- decoding its JSON are arguments.
pub mod Laws
pub mod Ids
use infrastructure_managemen.Common.{
  ℕ, ◌+◌, String, Bool, Option, none, some, List, [], ◌∷◌, if◌then◌else◌, Result, ok, err, length,
  ltb,
}
use infrastructure_managemen.Common.Clock.{Time, utc}
use infrastructure_managemen.Common.Maps.{Map, insert}
use infrastructure_managemen.Common.Order.{str_lt, sort_by}
use infrastructure_managemen.Parser.Domain.{DesiredHost, Snapshot, clone_host}
use infrastructure_managemen.Parser.Values.{Floats}
use infrastructure_managemen.Parser.Manifest.{
  StructurizrManifest, ParseError, parse_structurizr_manifest,
}
use infrastructure_managemen.Parser.Mapper.{MapResult, map_manifest}
use infrastructure_managemen.Parser.Store.{Store, new_store, replace, set_ready}

-- The variables of the loop over the files; `warnings` is logged only.
pub record Progress : Type 0 where
  pub broken_files : ℕ
  pub loaded_files : ℕ
  pub hosts_by_id : Map DesiredHost
  pub warnings_count : ℕ

abbrev pub start : Progress
start = record { broken_files = 0; loaded_files = 0; hosts_by_id = []; warnings_count = 0 }

-- hostsByID[host.HostID] = host, for every host
unfoldable pub put_hosts : List DesiredHost → Map DesiredHost → Map DesiredHost
put_hosts [] m = m
put_hosts (host ∷ hosts) m = put_hosts hosts (insert host.host_id host m)

-- One turn of the loop: a file that was not read or parsed, or its hosts.
unfoldable pub add_file : Option MapResult → Progress → Progress
add_file none p = record p { broken_files = p.broken_files + 1 }
add_file (some r) p = record p {
  loaded_files = p.loaded_files + 1;
  hosts_by_id = put_hosts r.hosts p.hosts_by_id;
  warnings_count = p.warnings_count + length r.warnings;
}

-- The hosts of the map, in the order of a range loop.
unfoldable pub map_values : Map DesiredHost → List DesiredHost
map_values [] = []
map_values ((id, host) ∷ m) = clone_host host ∷ map_values m

abbrev pub host_lt : DesiredHost → DesiredHost → Bool
host_lt a b = str_lt a.host_id b.host_id

unfoldable pub count_workloads : List DesiredHost → ℕ
count_workloads [] = 0
count_workloads (host ∷ hosts) = length host.workloads + count_workloads hosts

-- The snapshot after the loop.
unfoldable pub build_snapshot : Time → String → String → ℕ → ℕ → Progress → Snapshot
build_snapshot now mode path json_files ignored p =
    let hosts = sort_by host_lt (map_values p.hosts_by_id) in
    let ready = ltb 0 p.loaded_files in
    record {
      state = record { hosts = hosts };
      metadata = record {
        loaded_at = utc now;
        manifest_mode = mode;
        manifest_path = path;
        files_total = json_files + ignored;
        files_loaded = p.loaded_files;
        files_broken = p.broken_files;
        files_ignored = ignored;
        hosts_total = length hosts;
        workloads_total = count_workloads hosts;
        ready = ready;
        ready_reason = if ready then "" else "no valid manifest files were loaded";
      };
    }

module _ (floats : Floats) {Bytes : Type 0} (load_file : String → Result String Bytes)
    (unmarshal : Bytes → Result String (StructurizrManifest floats.Float)) where
  abbrev map_parsed :
      String → Result ParseError (StructurizrManifest floats.Float) → Option MapResult
  map_parsed file (err e) = none
  map_parsed file (ok manifest) = some (map_manifest floats manifest file)

  abbrev parse_loaded : String → Result String Bytes → Option MapResult
  parse_loaded file (err e) = none
  parse_loaded file (ok content) = map_parsed file (parse_structurizr_manifest unmarshal content)

  -- What one file gives, unless it is broken.
  unfoldable pub map_file : String → Option MapResult
  map_file file = parse_loaded file (load_file file)

  unfoldable pub load_files : List String → Progress → Progress
  load_files [] p = p
  load_files (file ∷ files) p = load_files files (add_file (map_file file) p)

  unfoldable pub load_desired_state : Time → List String → String → String → ℕ → Snapshot
  load_desired_state now json_files mode path ignored_files =
      build_snapshot now mode path (length json_files) ignored_files (load_files json_files start)

  -- The store that Run serves.
  unfoldable pub serve : Time → List String → String → String → ℕ → Store
  serve now json_files mode path ignored_files =
      let snapshot = load_desired_state now json_files mode path ignored_files in
      set_ready snapshot.metadata.ready (replace snapshot new_store)
