-- ===== src/Inventory/Sync/Snapshot.antt =====
-- What a sync leaves in the store.
use mathlib.Core.List.{append-nil, append_assoc}
use infrastructure_managemen.Common.Int.{ℤ}
use infrastructure_managemen.Common.{
  ℕ, suc, ◌+◌, ◌<◌, String, ◌≡◌, refl, ap, subst, Option-cases, inl, inr, sym, ◌↔◌, true, none,
  some, List, [], ◌∷◌, ◌++◌, arith, if◌then◌else◌, length, All, All-append, Result, ok, err,
}
use infrastructure_managemen.Common.Clock.{Time, utc}
use infrastructure_managemen.Inventory.Domain.{HostSeed, Host, InventorySnapshot, InventoryMetadata}
use infrastructure_managemen.Inventory.Domain.Clones.{HasMaps}
use infrastructure_managemen.Inventory.Store
use infrastructure_managemen.Inventory.Store.{Store, get_snapshot, replace}
use infrastructure_managemen.Inventory.Store.Laws.{get-replace}
use infrastructure_managemen.Inventory.Sync.{
  HostSource, Env, is_failure, metadata_of, collect_host, Collected, add_host, collect_hosts,
  finish_sync, sync,
}
use infrastructure_managemen.Inventory.Sync.Counts.{
  IsReported, collect_host-IsReported, collect_host-HasMaps,
}

-- How many hosts are partial or in error.
pub failed_count : List Host → ℕ
failed_count [] = 0
failed_count (h ∷ hs) = if is_failure h.status then suc (failed_count hs) else failed_count hs

failed_count-append :
    (xs ys : List Host) → failed_count (xs ++ ys) ≡ failed_count xs + failed_count ys
unfolding failed_count
failed_count-append [] ys = omega arith
failed_count-append (x ∷ xs) ys = ground (arith, failed_count-append xs ys)

-- Each seed, in order, has its host.
pub data AreReported {W : Type 0} (sources : List (HostSource W))
    : List HostSeed → List Host → Type 0 where
  none_left : AreReported sources [] []
  one_more :
      {seed : HostSeed} {h : Host} {seeds : List HostSeed} {hs : List Host}
      → IsReported sources seed h
      → AreReported sources seeds hs
      → AreReported sources (seed ∷ seeds) (h ∷ hs)

AreReported-snoc :
    {W : Type 0} {sources : List (HostSource W)} {seeds : List HostSeed} {hs : List Host}
    (seed : HostSeed) (h : Host)
    → AreReported sources seeds hs
    → IsReported sources seed h
    → AreReported sources (seeds ++ seed ∷ []) (hs ++ h ∷ [])
AreReported-snoc seed h none_left r = one_more r none_left
AreReported-snoc seed h (one_more q rs) r = one_more q (AreReported-snoc seed h rs r)

length-AreReported :
    {W : Type 0} {sources : List (HostSource W)} {seeds : List HostSeed} {hs : List Host}
    → AreReported sources seeds hs
    → length hs ≡ length seeds
length-AreReported none_left = refl
length-AreReported (one_more q rs) = ap suc (length-AreReported rs)

-- The loop's state after the seeds `past`.
record IsCollected {W : Type 0} (sources : List (HostSource W)) (past : List HostSeed)
    (c : Collected) : Type 0 where
  reported : AreReported sources past c.hosts
  failed : c.failed_hosts ≡ failed_count c.hosts
  maps : All HasMaps c.hosts

add_host-IsCollected :
    {W : Type 0} {sources : List (HostSource W)} {past : List HostSeed} (seed : HostSeed) (h : Host)
    (c : Collected)
    → IsCollected sources past c
    → IsReported sources seed h
    → HasMaps h
    → IsCollected sources (past ++ seed ∷ []) (add_host h c)
unfolding add_host failed_count
add_host-IsCollected seed h c inv r maps = record {
  reported = AreReported-snoc seed h inv.reported r;
  failed = ground (arith, failed_count-append c.hosts (h ∷ []), inv.failed);
  maps = All-append HasMaps c.hosts (h ∷ []) inv.maps (maps, tt);
}

-- The snapshot that a complete sync stores.
pub record IsSynced {W : Type 0} (sources : List (HostSource W)) (seeds : List HostSeed)
    (previous : InventoryMetadata) (s : InventorySnapshot) : Type 0 where
  pub reported : AreReported sources seeds s.hosts
  pub total : s.metadata.total_hosts ≡ length seeds
  pub failed : s.metadata.failed_hosts ≡ failed_count s.hosts
  pub partial_iff : (s.metadata.is_partial ≡ true) ↔ (0 < failed_count s.hosts)
  pub full :
      s.metadata.last_full_sync_at
      ≡ (if s.metadata.is_partial then previous.last_full_sync_at else s.metadata.last_sync_at)
  pub partial :
      s.metadata.last_partial_sync_at
      ≡ (if s.metadata.is_partial then s.metadata.last_sync_at else previous.last_partial_sync_at)

stored :
    {W : Type 0} (sources : List (HostSource W)) (seeds : List HostSeed) (c : Collected) (t : Time)
    (ms : ℤ) (previous : InventoryMetadata)
    → IsCollected sources seeds c
    → IsSynced sources seeds previous (record {
      hosts = c.hosts;
      metadata = metadata_of (length c.hosts) c.failed_hosts t ms previous;
    })
unfolding metadata_of
stored sources seeds c t ms previous inv = record {
  reported = inv.reported;
  total = length-AreReported inv.reported;
  failed = inv.failed;
  partial_iff = (λ h. ground (arith, inv.failed), λ h. ground (arith, inv.failed));
  full = refl;
  partial = refl;
}

module _ (env : Env) where
  open env use {World}

  collect_hosts-IsCollected :
      (sources : List (HostSource World)) (seeds past : List HostSeed) (c d : Collected) (w : World)
      → IsCollected sources past c
      → (collect_hosts env sources seeds c w).0 ≡ ok d
      → IsCollected sources (past ++ seeds) d
  unfolding collect_hosts
  collect_hosts-IsCollected sources [] past c d w inv h =
      let same : c ≡ d = cc in
      subst (IsCollected sources (past ++ [])) same
        (subst (λ (l : List HostSeed). IsCollected sources l c) (sym (append-nil past)) inv)
  collect_hosts-IsCollected sources (seed ∷ seeds) past c d w inv h =
      elim (Option-cases (env.done w).0) [
        | inl open_context ↦
            let (host, w₂) = collect_host env sources seed (env.done w).1 in
            subst (λ (l : List HostSeed). IsCollected sources l d)
              (append_assoc past (seed ∷ []) seeds)
              (collect_hosts-IsCollected sources seeds (past ++ seed ∷ []) (add_host host c) d w₂
                (add_host-IsCollected seed host c inv
                  (collect_host-IsReported env sources seed (env.done w).1)
                  (collect_host-HasMaps env sources seed (env.done w).1))
                (rw (open_context, collect_hosts) at h))
        | inr (m, closed) ↦ let e : err m ≡ ok d = rw (closed, collect_hosts) at h in absurd (cc)
      ]

  finish_sync-IsSynced :
      (sources : List (HostSource World)) (seeds : List HostSeed) (t : Time)
      (reply : Result String Collected) (store : Store.Store) (w : World)
      → ((c : Collected) → reply ≡ ok c → IsCollected sources seeds c)
      → (finish_sync env t reply store w).0 ≡ none
      → IsSynced sources seeds
          (get_snapshot store).metadata
          (get_snapshot (finish_sync env t reply store w).1)
  unfolding finish_sync
  finish_sync-IsSynced sources seeds t (err m) store w inv e = absurd (cc)
  finish_sync-IsSynced sources seeds t (ok c) store w inv e =
      let inv' = inv c refl in
      subst (IsSynced sources seeds (get_snapshot store).metadata)
        (sym (get-replace store _ "" inv'.maps).0) (stored sources seeds c _ _ _ inv')

  finish_sync-eq :
      (t : Time) (reply : Result String Collected) (store : Store.Store) (w : World)
      {message : String}
      → (finish_sync env t reply store w).0 ≡ some message
      → (finish_sync env t reply store w).1 ≡ store
  unfolding finish_sync
  finish_sync-eq t (err m) store w e = refl
  finish_sync-eq t (ok c) store w e = absurd (cc)

-- A sync that ends with an error changes nothing in the store.
pub sync-eq :
    (env : Env) (sources : List (HostSource env.World)) (seeds : List HostSeed)
    (store : Store.Store) (w : env.World) (message : String)
    → (sync env sources seeds store w).0 ≡ some message
    → (sync env sources seeds store w).1 ≡ store
unfolding sync
sync-eq env sources seeds store w message e = finish_sync-eq env _ _ store _ e

-- A sync that ends without an error stores, for each seed in order, its host with its status; the total, the
-- number of failed hosts and the partial mark agree with the hosts, and of the times of the last full
-- and the last partial sync it moves the one that the partial mark tells.
pub sync-IsSynced :
    (env : Env) (sources : List (HostSource env.World)) (seeds : List HostSeed)
    (store : Store.Store) (w : env.World)
    → (sync env sources seeds store w).0 ≡ none
    → IsSynced sources seeds
        (get_snapshot store).metadata
        (get_snapshot (sync env sources seeds store w).1)
unfolding sync failed_count
sync-IsSynced env sources seeds store w =
    finish_sync-IsSynced env sources seeds (utc (env.now w).0)
      (collect_hosts env sources seeds (record { hosts = []; failed_hosts = 0 }) (env.now w).1).0
      store _
      (λ c e.
        collect_hosts-IsCollected env sources seeds [] (record { hosts = []; failed_hosts = 0 }) c
          (env.now w).1 (record { reported = none_left; failed = refl; maps = tt }) e)
