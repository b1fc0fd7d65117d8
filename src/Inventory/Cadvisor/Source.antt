-- ===== src/Inventory/Cadvisor/Source.antt =====
-- InventorySvc/internal/sources/cadvisor/source.go, and InventorySvc/internal/sources/source.go.
use Prim.Native.String.{◌++◌ as concat}
use infrastructure_managemen.Common.{String, Bool, List, if◌then◌else◌, Result, ok, err}
use infrastructure_managemen.Common.Clock.{Time, Duration, utc}
use infrastructure_managemen.Common.Json.{Json, Mismatch, Rfc3339}
use infrastructure_managemen.Inventory.Config.{CadvisorConfig}
use infrastructure_managemen.Inventory.Domain.{HostSeed, SourceData}
use infrastructure_managemen.Inventory.Sync.{HostSource}
use infrastructure_managemen.Inventory.Cadvisor.{
  ContainersResponse, source_name, normalize_containers, filter_workloads,
}
use infrastructure_managemen.Inventory.Cadvisor.Client.{Fetched, read_fetched, build_url}

-- The clock, and a GET that ends after the timeout, or with the sync's context where the timeout is not
-- positive.
pub record Link (W : Type 0) : Type 0 where
  pub now : W → Time × W
  pub get : Duration → String → W → Fetched × W
  pub replace : List (String × String) → String → String
  pub times : Rfc3339
  pub unmarshal : String → Result Mismatch Json

module _ {W : Type 0} (link : Link W) (cfg : CadvisorConfig) where
  unfoldable pub fetch_containers : String → W → Result String ContainersResponse × W
  fetch_containers fqdn w =
      let url = build_url link.replace cfg fqdn in
      let (fetched, w') = link.get cfg.timeout url w in
      (read_fetched link.times link.unmarshal url fetched, w')

  -- The rest of CollectHost, after the containers; the clock is read once for the log.
  unfoldable pub collected : Result String ContainersResponse × W → Result String SourceData × W
  collected (err e, w) = (err e, w)
  collected (ok containers, w) =
      let (workloads, latest) = normalize_containers containers in
      let (observed_at, w') = link.now w in
      let (logged_at, w'') = link.now w' in
      (
        ok (record {
          workloads = filter_workloads workloads cfg.include_system_workloads;
          observed_at = utc observed_at;
        }),
        w'',
      )

  unfoldable pub collect_host : HostSeed → W → Result String SourceData × W
  collect_host host w =
      let (start, w') = link.now w in
      let done = collected (fetch_containers host.fqdn w') in
      if cfg.is_enabled
      then done
      else (err (concat "source " (concat source_name " is disabled")), w)

  -- NewSource, as the service uses it
  unfoldable pub new_source : HostSource W
  new_source = record { name = source_name; enabled = cfg.is_enabled; collect_host = collect_host }

-- PlaceholderSource; `quote` is the %q of package fmt
unfoldable pub placeholder_source : {W : Type 0} → (String → String) → String → Bool → HostSource W
placeholder_source quote source_name is_on = record {
  name = source_name;
  enabled = is_on;
  collect_host = λ host w. (
    err (concat "source " (concat (quote source_name) " is enabled but not implemented in MVP")),
    w,
  );
}
