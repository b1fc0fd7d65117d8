-- ===== src/Drift/Detection/Recorder.antt =====
-- An environment that keeps a log beside its world: the last readings of the clock, and the requests that the
-- reconciler has accepted. Its answers are those of the environment that it records.
pub mod Laws
pub mod Marks
use infrastructure_managemen.Common.{String, ◌≡◌, ◌⊎◌, Option, some, [], ◌∷◌, Result, ok, err}
use infrastructure_managemen.Common.Int.{pos, ◌+ℤ◌, ◌≤ℤ◌}
use infrastructure_managemen.Common.Clock.{Time, Duration, utc}
use infrastructure_managemen.Common.Maps.{Map, lookup}
use infrastructure_managemen.Drift.Domain.{ReconcileCommand, ReconcileAccepted}
use infrastructure_managemen.Drift.Cooldown
use infrastructure_managemen.Drift.Cooldown.{build_key}
use infrastructure_managemen.Drift.Detection.Report.{Env}

-- `decided` is the third last reading of the clock: a cycle reads it twice between the reading that it decides
-- by and the request. In `sent` the latest accepted request comes first.
pub record Recorder (W : Type 0) : Type 0 where
  pub world : W
  pub latest : Time
  pub before : Time
  pub decided : Time
  pub sent : Map Time

-- The log after the answer to a request.
abbrev pub noted : ReconcileCommand → Time → Result String ReconcileAccepted → Map Time → Map Time
noted command t (err e) log = log
noted command t (ok accepted) log = (build_key command.component command.fqdn, utc t) ∷ log

abbrev pub recorded : Env → Env
recorded env = record {
  World = Recorder env.World;
  now = λ r.
      let (t, w) = env.now r.world in
      (t, record r { world = w; latest = t; before = r.latest; decided = r.before });
  fetch_actual_state =
      λ r. let (reply, w) = env.fetch_actual_state r.world in (reply, record r { world = w });
  fetch_desired_state =
      λ r. let (reply, w) = env.fetch_desired_state r.world in (reply, record r { world = w });
  send_reconcile = λ command r.
      let (reply, w) = env.send_reconcile command r.world in
      (reply, record r { world = w; sent = noted command r.decided reply r.sent });
}

-- A request decided at `t` is due after the earlier one `o` of its key: by the wall clock, the cooldown is over.
abbrev pub IsDue : Duration → Option Time → Time → Type 0
IsDue c o t = (c ≤ℤ pos 0) ⊎ ((last : Time) → o ≡ some last → (last.wall +ℤ c) ≤ℤ t.wall)

-- Each request was due after the one before of the same key.
unfoldable pub AreSpaced : Duration → Map Time → Type 0
AreSpaced c [] = Unit
AreSpaced c ((key, t) ∷ log) = IsDue c (lookup key log) t × AreSpaced c log

-- The requests are spaced, and the store has the last one of every key.
pub record IsRecorded (c : Duration) (store : Cooldown.Store) (log : Map Time) : Type 0 where
  pub kept : (key : String) → lookup key store.last_sent ≡ lookup key log
  pub spaced : AreSpaced c log
