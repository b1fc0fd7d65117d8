-- ===== src/Drift/Detection/Report/Counts.antt =====
-- What the updates of a cycle's result do to its counters.
use infrastructure_managemen.Common.{
  ℕ, ◌+◌, ◌≤◌, String, ◌≡◌, Bool, true, false, [], ◌∷◌, arith, length, length-append, if_both, ◌==◌,
}
use infrastructure_managemen.Common.Text.{trim_space}
use infrastructure_managemen.Drift.Domain.{
  Component, DesiredHost, DesiredState, ActualState, DetectorResult, DetectionCycleResult,
}
use infrastructure_managemen.Drift.Detection.Report.{
  zero_stats, add_error, add_warning, mark_partial, note_partial, note_ready, note_metadata,
  prepare, count_drift, count_no_data, note_missing_data,
}

-- `n` hosts are left to the loop, `open_drifts` are counted whose fate is not, and the host at hand
-- may still be counted as one without data if `room` is 1.
pub record IsCounted (n open_drifts room : ℕ) (r : DetectionCycleResult) : Type 0 where
  pub hosts :
      r.stats.compared_hosts + r.stats.skipped_hosts_no_actual_host + n ≡ r.stats.desired_hosts
  pub no_data : r.stats.skipped_hosts_no_actual_data + room ≤ r.stats.compared_hosts
  pub settled :
      r.stats.reconcile_sent + r.stats.reconcile_suppressed + open_drifts ≤ r.stats.drifts_found
  pub accounted :
      r.stats.drifts_found
      ≤ r.stats.reconcile_sent + r.stats.reconcile_suppressed + r.stats.errors + open_drifts
  pub messages : r.stats.errors ≡ length r.error_messages

abbrev pub room_of : Bool → ℕ
room_of true = 0
room_of false = 1

module _ {n room : ℕ} where
  pub add_error-IsCounted :
      (m : String) (r : DetectionCycleResult)
      → IsCounted n 0 room r
      → IsCounted n 0 room (add_error m r)
  unfolding add_error
  add_error-IsCounted m r c = ground (arith, length-append r.error_messages (m ∷ []))

  pub add_error-IsCounted_open :
      (m : String) (r : DetectionCycleResult)
      → IsCounted n 1 room r
      → IsCounted n 0 room (add_error m r)
  unfolding add_error
  add_error-IsCounted_open m r c = ground (arith, length-append r.error_messages (m ∷ []))

  pub count_drift-IsCounted :
      (r : DetectionCycleResult) → IsCounted n 0 room r → IsCounted n 1 room (count_drift r)
  unfolding count_drift
  count_drift-IsCounted r c = ground arith

pub note_missing_data-IsCounted :
    {n : ℕ} (component : Component) (desired : DesiredHost) (skipped : Bool) (d : DetectorResult)
    (r : DetectionCycleResult)
    → IsCounted n 0 (room_of skipped) r
    → IsCounted n 0 0 (note_missing_data component desired skipped d r)
unfolding note_missing_data mark_partial add_warning count_no_data
note_missing_data-IsCounted component desired true d r c =
    if_both (IsCounted _ 0 0) (trim_space d.skip_reason == "") _ _ (ground arith) (ground arith)
note_missing_data-IsCounted component desired false d r c =
    if_both (IsCounted _ 0 0) (trim_space d.skip_reason == "") _ _ (ground arith) (ground arith)

-- Nothing has been counted yet.
pub record IsNew (r : DetectionCycleResult) : Type 0 where
  pub no_stats : r.stats ≡ zero_stats
  pub no_messages : r.error_messages ≡ []

pub note_partial-IsNew : (b : Bool) (r : DetectionCycleResult) → IsNew r → IsNew (note_partial b r)
unfolding note_partial add_warning mark_partial
note_partial-IsNew true r new = record { no_stats = new.no_stats; no_messages = new.no_messages }
note_partial-IsNew false r new = new

pub note_ready-IsNew :
    (b : Bool) (reason : String) (r : DetectionCycleResult)
    → IsNew r
    → IsNew (note_ready b reason r)
unfolding note_ready add_warning mark_partial
note_ready-IsNew true reason r new = new
note_ready-IsNew false reason r new = record {
  no_stats = new.no_stats;
  no_messages = new.no_messages;
}

pub note_metadata-IsNew :
    (actual : ActualState) (desired : DesiredState) (r : DetectionCycleResult)
    → IsNew r
    → IsNew (note_metadata actual desired r)
unfolding note_metadata
note_metadata-IsNew actual desired r new = note_ready-IsNew desired.metadata.ready _ _ (
    note_partial-IsNew actual.metadata.is_partial _
      (record { no_stats = new.no_stats; no_messages = new.no_messages }))

pub prepare-IsCounted :
    (actual : ActualState) (desired : DesiredState) (r : DetectionCycleResult)
    → IsNew r
    → IsCounted (length desired.hosts) 0 0 (prepare actual desired r)
unfolding prepare
prepare-IsCounted actual desired r new =
    let n = note_metadata-IsNew actual desired r new in ground (arith, n.no_stats, n.no_messages)

pub add_error-IsCounted_new :
    (m : String) (r : DetectionCycleResult) → IsNew r → IsCounted 0 0 0 (add_error m r)
unfolding add_error
add_error-IsCounted_new m r new = ground (arith, length-append r.error_messages (m ∷ []))

-- The names, times and warnings of a result have no part in its counts.
pub IsCounted-same :
    {n : ℕ} (r s : DetectionCycleResult)
    → r.stats ≡ s.stats
    → r.error_messages ≡ s.error_messages
    → IsCounted n 0 0 r
    → IsCounted n 0 0 s
IsCounted-same r s p q c = ground arith

pub forget_room :
    {n : ℕ} (skipped : Bool) (r : DetectionCycleResult)
    → IsCounted n 0 (room_of skipped) r
    → IsCounted n 0 0 r
forget_room true r c = c
forget_room false r c = ground arith
