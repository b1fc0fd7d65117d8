-- ===== src/Platform/Health.antt =====
-- What the detector concludes from a host of the inventory.
use mathlib.Core.Option
use infrastructure_managemen.Common.{
  String, ◌≡◌, refl, Bool, true, false, ◌&&◌, Option, none, some, if◌then◌else◌,
}
use infrastructure_managemen.Common.Text.{trim_space, to_lower, equal_fold}
use infrastructure_managemen.Common.Maps.{lookup, lookup-values_with}
use infrastructure_managemen.Drift.Domain.{source_ok, is_source_healthy}
use infrastructure_managemen.Inventory.Domain.{Host, SourceStatus, SourceStatusType}
use infrastructure_managemen.Inventory.Http.{source_status_text}
use infrastructure_managemen.Platform.Actual.{project_host, project_source_status}

abbrev pub is_ok : SourceStatusType → Bool
is_ok SourceStatusType.ok = true
is_ok SourceStatusType.error = false
is_ok SourceStatusType.disabled = false

-- The source is there, enabled, and its last collection went well.
abbrev pub reports_ok : Option SourceStatus → Bool
reports_ok none = false
reports_ok (some s) = s.enabled && is_ok s.status

status_lem :
    (enabled : Bool) (s : SourceStatusType)
    → (if enabled then equal_fold (trim_space (source_status_text s)) "ok" else false)
      ≡ enabled && is_ok s
unfolding equal_fold trim_space source_status_text to_lower
status_lem false s = refl
status_lem true SourceStatusType.ok = refl
status_lem true SourceStatusType.error = refl
status_lem true SourceStatusType.disabled = refl

by_status :
    (o : Option SourceStatus) → source_ok (Option.map project_source_status o) ≡ reports_ok o
by_status none = refl
by_status (some s) = status_lem s.enabled s.status

-- The detector takes a source of a host for healthy exactly if the inventory has a status of that source which
-- is enabled and ok.
pub is_source_healthy-project_host :
    (h : Host) (source : String)
    → is_source_healthy (project_host h) source ≡ reports_ok (lookup source h.source_status)
unfolding is_source_healthy
is_source_healthy-project_host h source =
    rw (lookup-values_with project_source_status source h.source_status)
      (by_status (lookup source h.source_status))
