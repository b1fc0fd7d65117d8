-- ===== src/Drift/Cooldown.antt =====
-- DriftDetectorSvc/internal/cooldown/store.go: when a reconcile request was last sent, per key.
pub mod Laws
mod Tests
use Prim.Native.String.{◌++◌}
use infrastructure_managemen.Common.{
  String, Bool, true, false, Option, none, some, [], if◌then◌else◌,
}
use infrastructure_managemen.Common.Int.{pos, ◌-ℤ◌, leb_ℤ}
use infrastructure_managemen.Common.Text.{trim_space, to_lower}
use infrastructure_managemen.Common.Maps.{Map, lookup, insert}
use infrastructure_managemen.Common.Clock.{Time, Duration, sub, utc, wrap}
use infrastructure_managemen.Drift.Domain.{Component}

pub record Store : Type 0 where
  pub last_sent : Map Time

abbrev pub new_store : Store
new_store = record { last_sent = [] }

unfoldable pub build_key : Component → String → String
build_key component fqdn = to_lower component ++ ("|" ++ to_lower (trim_space fqdn))

abbrev pub since_last : Time → Duration → Option Time → Bool × Duration
since_last now cooldown none = (true, pos 0)
since_last now cooldown (some last) =
    let elapsed = sub now last in
    if leb_ℤ cooldown elapsed then (true, pos 0) else (false, wrap (cooldown -ℤ elapsed))

-- Whether a request may be sent, and else how long it has to wait.
unfoldable pub can_send : Store → String → Time → Duration → Bool × Duration
can_send s key now cooldown =
    if leb_ℤ cooldown (pos 0)
    then (true, pos 0)
    else since_last now cooldown (lookup key s.last_sent)

unfoldable pub mark_sent : Store → String → Time → Store
mark_sent s key at = record { last_sent = insert key (utc at) s.last_sent }
