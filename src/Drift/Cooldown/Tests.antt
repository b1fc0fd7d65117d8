-- ===== src/Drift/Cooldown/Tests.antt =====
-- A store with one mark.
use infrastructure_managemen.Common.{
  String, ◌≡◌, refl, ◌↔◌, ◌⊎◌, inr, true, ◌||◌, some, ◌==◌, if◌then◌else◌,
}
use infrastructure_managemen.Common.Int.{pos, ◌≤ℤ◌, leb_ℤ}
use infrastructure_managemen.Common.Text.{trim_space, to_lower}
use infrastructure_managemen.Common.Maps.{lookup}
use infrastructure_managemen.Common.Clock.{Time, sub, utc}
use infrastructure_managemen.Drift.Domain.{cadvisor}
use infrastructure_managemen.Drift.Cooldown
use infrastructure_managemen.Drift.Cooldown.{build_key, can_send, mark_sent}
use infrastructure_managemen.Drift.Cooldown.Laws.{can_send_iff, can_send-mark_sent, build_key_iff}
use infrastructure_managemen.Drift.Tests.{at_time}

abbrev key : String
key = "cadvisor|web1.example.com"

can_send_iff_example :
    ((can_send (mark_sent Cooldown.new_store key (at_time 5)) key (at_time 9) (pos 3)).0 ≡ true) ↔ (
      (pos 3 ≤ℤ pos 0)
      ⊎ ((last : Time)
          → lookup key (mark_sent Cooldown.new_store key (at_time 5)).last_sent ≡ some last
          → pos 3 ≤ℤ sub (at_time 9) last))
can_send_iff_example =
    can_send_iff (mark_sent Cooldown.new_store key (at_time 5)) key (at_time 9) (pos 3)

can_send-mark_sent_example :
    (can_send (mark_sent Cooldown.new_store key (at_time 5)) "other" (at_time 6) (pos 3)).0 ≡ (
      if key == "other"
      then (leb_ℤ (pos 3) (pos 0) || leb_ℤ (pos 3) (sub (at_time 6) (utc (at_time 5))))
      else (can_send Cooldown.new_store "other" (at_time 6) (pos 3)).0)
can_send-mark_sent_example =
    can_send-mark_sent Cooldown.new_store key "other" (at_time 5) (at_time 6) (pos 3)

build_key_iff_example :
    (build_key cadvisor " Web-1" ≡ build_key cadvisor "web-1")
    ↔ ((cadvisor ≡ cadvisor) × (to_lower (trim_space " Web-1") ≡ to_lower (trim_space "web-1")))
build_key_iff_example = build_key_iff cadvisor cadvisor " Web-1" "web-1" (inr refl) (inr refl)
