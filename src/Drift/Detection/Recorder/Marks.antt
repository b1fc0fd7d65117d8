-- ===== src/Drift/Detection/Recorder/Marks.antt =====
-- When the cooldown lets a request pass, its mark keeps the log spaced.
use infrastructure_managemen.Common.{
  String, ◌≡◌, refl, sym, ◌⊎◌, inl, inr, true, ◌∷◌, arith, Bool-cases,
}
use infrastructure_managemen.Common.Int.{pos, ◌+ℤ◌, ◌≤ℤ◌, +ℤ_parts, -ℤ_parts, leb_ℤ, leb_ℤ→≤ℤ}
use infrastructure_managemen.Common.Clock.{Time, Duration, sub, utc, saturate}
use infrastructure_managemen.Common.Maps.{Map, lookup, lookup-insert}
use infrastructure_managemen.Drift.Cooldown
use infrastructure_managemen.Drift.Cooldown.{build_key, can_send, mark_sent}
use infrastructure_managemen.Drift.Cooldown.Laws.{can_send_iff}
use infrastructure_managemen.Drift.Detection.Recorder.{IsDue, AreSpaced, IsRecorded}

-- What lets the cooldown pass is due by the wall clock.
sub-IsDue :
    (c : Duration) (t last : Time)
    → c ≤ℤ sub (utc t) last
    → (c ≤ℤ pos 0) ⊎ ((last.wall +ℤ c) ≤ℤ t.wall)
unfolding sub utc saturate
sub-IsDue c t last h = elim (Bool-cases (leb_ℤ c (pos 0))) [
  | inl e ↦ inl (leb_ℤ→≤ℤ c (pos 0) e)
  | inr e ↦ inr (ground (arith, +ℤ_parts last.wall c, -ℤ_parts t.wall last.wall))
]

can_send-IsDue :
    (s : Cooldown.Store) (key : String) (t : Time) (c : Duration)
    → (can_send s key (utc t) c).0 ≡ true
    → IsDue c (lookup key s.last_sent) t
unfolding utc
can_send-IsDue s key t c h = elim (Bool-cases (leb_ℤ c (pos 0))) [
  | inl e ↦ inl (leb_ℤ→≤ℤ c (pos 0) e)
  | inr e ↦ inr (λ last found. elim ((can_send_iff s key (utc t) c).0 h) [
    | inl over ↦ absurd (ground arith)
    | inr due ↦ elim (sub-IsDue c t last (due last found)) [
      | inl over ↦ absurd (ground arith)
      | inr apart ↦ apart
    ]
  ])
]

-- The new mark is the log's new entry.
pub mark_sent-IsRecorded :
    (c : Duration) (s : Cooldown.Store) (log : Map Time) (key : String) (t : Time)
    → IsRecorded c s log
    → (can_send s key (utc t) c).0 ≡ true
    → IsRecorded c (mark_sent s key (utc t)) ((key, utc t) ∷ log)
unfolding mark_sent utc AreSpaced lookup
mark_sent-IsRecorded c s log key t r h = record {
  kept = λ k. rw (lookup-insert key k (utc t) s.last_sent, r.kept k) refl;
  spaced = (rw (sym (r.kept key)) (can_send-IsDue s key t c h), r.spaced);
}
