-- ===== src/Inventory/Sync/Counts.antt =====
-- What a sync puts in the store.
use infrastructure_managemen.Common.{
  ℕ, suc, ◌+◌, ◌<◌, String, ◌≡◌, refl, subst, ◌∙◌, ◌↔◌, Bool, true, false, Option, none, some, List,
  [], ◌∷◌, arith, if◌then◌else◌, length, length-append, Result, ok, err,
}
use infrastructure_managemen.Common.Maps.{Map, IsMap, insert-IsMap, copy-IsMap}
use infrastructure_managemen.Inventory.Domain.{HostStatus, HostSeed, SourceData, Host}
use infrastructure_managemen.Inventory.Domain.Clones.{HasMaps}
use infrastructure_managemen.Inventory.Sync.{
  HostSource, Env, clone_labels, Progress, start_host, note_disabled, note_failure, note_data,
  note_reply, classify, collect_if, collect_source, collect_sources, collect_host,
}

-- How many sources are enabled.
pub enabled_count : {W : Type 0} → List (HostSource W) → ℕ
enabled_count [] = 0
enabled_count (s ∷ ss) = if s.enabled then suc (enabled_count ss) else enabled_count ss

-- The counters of a host's turn agree with one another and with its errors.
pub record IsTallied (seed : HostSeed) (n : ℕ) (p : Progress) : Type 0 where
  pub total : p.enabled_sources ≡ n
  pub split : p.successful_sources + p.failed_sources ≡ p.enabled_sources
  pub errors : length p.host.errors ≡ p.failed_sources
  pub maps : HasMaps p.host
  pub id : p.host.id ≡ seed.id
  pub fqdn : p.host.fqdn ≡ seed.fqdn

clone_labels-IsMap : (labels : Option (Map String)) → IsMap (clone_labels labels)
unfolding clone_labels
clone_labels-IsMap none = tt
clone_labels-IsMap (some labels) = copy-IsMap labels

start_host-IsTallied : (seed : HostSeed) → IsTallied seed 0 (start_host seed)
unfolding start_host
start_host-IsTallied seed = record {
  total = refl;
  split = refl;
  errors = refl;
  maps = record { labels = clone_labels-IsMap seed.labels; source_status = tt };
  id = refl;
  fqdn = refl;
}

module _ {seed : HostSeed} {n : ℕ} where
  note_disabled-IsTallied :
      (name : String) (p : Progress) → IsTallied seed n p → IsTallied seed n (note_disabled name p)
  unfolding note_disabled
  note_disabled-IsTallied name p t = record {
    total = t.total;
    split = t.split;
    errors = t.errors;
    maps = record {
      labels = t.maps.labels;
      source_status = insert-IsMap name _ p.host.source_status t.maps.source_status;
    };
    id = t.id;
    fqdn = t.fqdn;
  }

  note_reply-IsTallied :
      (name : String) (reply : Result String SourceData) (p : Progress)
      → IsTallied seed n p
      → IsTallied seed (suc n) (note_reply name reply p)
  unfolding note_reply note_data note_failure
  note_reply-IsTallied name (ok d) p t = record {
    total = omega (arith, t.total);
    split = omega (arith, t.split);
    errors = t.errors;
    maps = record {
      labels = t.maps.labels;
      source_status = insert-IsMap name _ p.host.source_status t.maps.source_status;
    };
    id = t.id;
    fqdn = t.fqdn;
  }
  note_reply-IsTallied name (err m) p t = record {
    total = omega (arith, t.total);
    split = omega (arith, t.split);
    errors = length-append p.host.errors _ ∙ omega (arith, t.errors);
    maps = record {
      labels = t.maps.labels;
      source_status = insert-IsMap name _ p.host.source_status t.maps.source_status;
    };
    id = t.id;
    fqdn = t.fqdn;
  }

abbrev more : Bool → ℕ → ℕ
more b n = if b then suc n else n

-- A host after its turn: its names are the seed's, and its status says how its sources did.
pub record IsReported {W : Type 0} (sources : List (HostSource W)) (seed : HostSeed) (h : Host)
    : Type 0 where
  pub id : h.id ≡ seed.id
  pub fqdn : h.fqdn ≡ seed.fqdn
  pub bootstrap_iff : (h.status ≡ HostStatus.bootstrap_only) ↔ (enabled_count sources ≡ 0)
  pub ok_iff : (h.status ≡ HostStatus.ok) ↔ ((0 < enabled_count sources) × (length h.errors ≡ 0))
  pub partial_iff :
      (h.status ≡ HostStatus.partial)
      ↔ ((0 < length h.errors) × (length h.errors < enabled_count sources))
  pub error_iff :
      (h.status ≡ HostStatus.error)
      ↔ ((0 < enabled_count sources) × (length h.errors ≡ enabled_count sources))

classify-IsReported :
    {W : Type 0} (sources : List (HostSource W)) (seed : HostSeed) (p : Progress)
    → IsTallied seed (enabled_count sources) p
    → IsReported sources seed (record (p.host) { status = classify p })
unfolding classify
classify-IsReported sources seed p t = record {
  id = t.id;
  fqdn = t.fqdn;
  bootstrap_iff = (λ h. ground arith, λ h. ground arith);
  ok_iff = (λ h. (ground arith, ground arith), λ h. ground arith);
  partial_iff = (λ h. (ground arith, ground arith), λ h. ground arith);
  error_iff = (λ h. (ground arith, ground arith), λ h. ground arith);
}

module _ (env : Env) where
  open env use {World}

  collect_if-IsTallied :
      {seed : HostSeed} {n : ℕ} (b : Bool) (source : HostSource World) (p : Progress) (w : World)
      → IsTallied seed n p
      → IsTallied seed (more b n) (collect_if env b source seed p w).0
  unfolding collect_if
  collect_if-IsTallied false source p w t = note_disabled-IsTallied source.name p t
  collect_if-IsTallied true source p w t = note_reply-IsTallied source.name _ p t

  more-add : (b : Bool) (n m : ℕ) → more b n + m ≡ n + more b m
  more-add true n m = omega arith
  more-add false n m = refl

  collect_sources-IsTallied :
      {seed : HostSeed} (sources : List (HostSource World)) (n : ℕ) (p : Progress) (w : World)
      → IsTallied seed n p
      → IsTallied seed (n + enabled_count sources) (collect_sources env sources seed p w).0
  unfolding collect_sources enabled_count collect_source
  collect_sources-IsTallied {seed} [] n p w t =
      subst (λ (k : ℕ). IsTallied seed k p) (omega arith) t
  collect_sources-IsTallied {seed} (source ∷ sources) n p w t =
      let (p', w') = collect_if env source.enabled source seed p w in
      subst (λ (k : ℕ). IsTallied seed k (collect_sources env sources seed p' w').0)
        (more-add source.enabled n (enabled_count sources))
        (collect_sources-IsTallied sources (more source.enabled n) p' w'
          (collect_if-IsTallied source.enabled source p w t))

  pub collect_host_tally :
      (sources : List (HostSource World)) (seed : HostSeed) (w : World)
      → IsTallied seed
          (enabled_count sources)
          (collect_sources env sources seed (start_host seed) w).0
  collect_host_tally sources seed w =
      subst (λ (k : ℕ). IsTallied seed k (collect_sources env sources seed (start_host seed) w).0)
        (omega arith)
        (collect_sources-IsTallied sources 0 (start_host seed) w (start_host-IsTallied seed))

  -- A host after its turn has its seed's id and FQDN. It is bootstrap-only exactly if no source is
  -- enabled; ok exactly if some source is and the host has no errors; in error exactly if some
  -- source is enabled and there are as many errors as enabled sources; and partial exactly if
  -- there are errors but fewer than enabled sources.
  pub collect_host-IsReported :
      (sources : List (HostSource World)) (seed : HostSeed) (w : World)
      → IsReported sources seed (collect_host env sources seed w).0
  unfolding collect_host
  collect_host-IsReported sources seed w =
      classify-IsReported sources seed _ (collect_host_tally sources seed w)

  pub collect_host-HasMaps :
      (sources : List (HostSource World)) (seed : HostSeed) (w : World)
      → HasMaps (collect_host env sources seed w).0
  unfolding collect_host
  collect_host-HasMaps sources seed w =
      let m = (collect_host_tally sources seed w).maps in
      record { labels = m.labels; source_status = m.source_status }
