-- ===== src/Inventory/Tests.antt =====
-- Two hosts and two sources, one of which reaches only the first host, and syncs of them.
use mathlib.Core.List.{Memᴰ}
use infrastructure_managemen.Inventory.Filter.{filter_hosts_by_labels}
use infrastructure_managemen.Inventory.Filter.Laws.{HasLabels, filter_hosts_by_labels_iff}
use infrastructure_managemen.Inventory.Bootstrap.{
  validate, invalid, id_duplicated, fqdn_duplicated, check_seeds, check_seed, check_labels,
  check_required, check_fqdn, check_id, see_id, see_fqdn, add_if, lacks,
}
use infrastructure_managemen.Inventory.Bootstrap.Laws.{AreValid, validate_iff}
use infrastructure_managemen.Common.Text.{trim_space}
use infrastructure_managemen.Common.Maps.{has, insert, lookup}
use infrastructure_managemen.Common.{
  ℕ, ◌+◌, String, ◌≡◌, ◌↔◌, refl, true, false, none, some, List, [], ◌∷◌, ◌==◌, if◌then◌else◌,
  Result, ok, err,
}
use infrastructure_managemen.Common.Int.{pos}
use infrastructure_managemen.Common.Clock.{Time}
use infrastructure_managemen.Inventory.Domain.{
  HostStatus, HostSeed, SourceData, Host, clone_snapshot, clone_hosts, clone_host,
}
use infrastructure_managemen.Inventory.Store
use infrastructure_managemen.Inventory.Store.{
  empty_metadata, replace, get_snapshot, get_host, is_ready,
}
use infrastructure_managemen.Inventory.Sync.{
  HostSource, Env, collect_host, sync, collect_hosts, collect_sources, collect_source, collect_if,
  finish_sync, add_host, classify, note_disabled, note_reply, note_data, note_failure, start_host,
  metadata_of, is_failure,
}
use infrastructure_managemen.Inventory.Sync.Counts.{IsReported, collect_host-IsReported}
use infrastructure_managemen.Inventory.Sync.Snapshot.{IsSynced, sync-IsSynced}

abbrev pub at_time : ℕ → Time
at_time n = record { wall = pos n; mono = none }

abbrev seed : String → HostSeed
seed name = record { id = name; fqdn = name; labels = some (("env", "dev") ∷ []) }

abbrev seeds : List HostSeed
seeds = seed "web" ∷ seed "db" ∷ []

abbrev reply : String → ℕ → Result String SourceData × ℕ
reply id w = (
  if id == "web" then ok (record { workloads = []; observed_at = at_time w }) else err "timeout",
  w + 1,
)

abbrev cadvisor : HostSource ℕ
cadvisor = record { name = "cadvisor"; enabled = true; collect_host = λ s w. reply s.id w }

abbrev docker : HostSource ℕ
docker = record { name = "docker"; enabled = false; collect_host = λ s w. (err "unused", w) }

abbrev sources : List (HostSource ℕ)
sources = cadvisor ∷ docker ∷ []

-- The world is the time.
abbrev env : Env
env = record { World = ℕ; now = λ w. (at_time w, w + 1); done = λ w. (none, w) }

abbrev host : Host
host = record {
  id = "web";
  fqdn = "web";
  labels = ("env", "dev") ∷ [];
  workloads = [];
  last_observed_at = none;
  status = HostStatus.ok;
  source_status = [];
  errors = [];
}

sync-IsSynced_example :
    IsSynced sources seeds
      (get_snapshot Store.new_store).metadata
      (get_snapshot (sync env sources seeds Store.new_store 1).1)
unfolding sync collect_hosts finish_sync
sync-IsSynced_example = sync-IsSynced env sources seeds Store.new_store 1 refl

collect_host-IsReported_example :
    IsReported sources (seed "db") (collect_host env sources (seed "db") 1).0
collect_host-IsReported_example = collect_host-IsReported env sources (seed "db") 1

abbrev pub complete_seed : String → HostSeed
complete_seed name = record {
  id = name;
  fqdn = name;
  labels = some (("managed_by", "ops") ∷ ("purpose", "front") ∷ ("env", "dev") ∷ []);
}

abbrev file_seeds : List HostSeed
file_seeds = complete_seed "web" ∷ complete_seed " web" ∷ []

validate_iff_example : (validate file_seeds ≡ none) ↔ AreValid file_seeds
validate_iff_example = validate_iff file_seeds

filter_hosts_by_labels_iff_example :
    Memᴰ host (filter_hosts_by_labels (host ∷ []) (("env", "dev") ∷ []))
    ↔ Memᴰ host (host ∷ []) × HasLabels host (("env", "dev") ∷ [])
filter_hosts_by_labels_iff_example =
    filter_hosts_by_labels_iff (("env", "dev") ∷ []) host (host ∷ [])
      (record { labels = (tt, tt); source_status = tt }, tt)

-- The second id of the file is the first one, but for a space.
duplicate :
    validate file_seeds ≡ some (invalid (id_duplicated 1 "web" ∷ fqdn_duplicated 1 "web" ∷ []))
unfolding validate check_seeds check_seed check_labels check_required check_fqdn check_id see_id
    see_fqdn add_if lacks has insert lookup trim_space
duplicate = refl

-- The status of every host after a sync, and the number of failed hosts.
abbrev statuses : List Host → List HostStatus
statuses [] = []
statuses (h ∷ hs) = h.status ∷ statuses hs

one_failure :
    let stored = get_snapshot (sync env sources seeds Store.new_store 1).1 in
    (statuses stored.hosts ≡ HostStatus.ok ∷ HostStatus.error ∷ [])
    × (stored.metadata.failed_hosts ≡ 1)
    × (stored.metadata.is_partial ≡ true)
unfolding sync collect_hosts finish_sync collect_host get_snapshot replace collect_sources
    collect_source collect_if clone_snapshot clone_hosts add_host clone_host classify note_disabled
    note_reply note_data note_failure start_host metadata_of is_failure
one_failure = (refl, refl, refl)
