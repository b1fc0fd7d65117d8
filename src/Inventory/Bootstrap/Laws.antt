-- ===== src/Inventory/Bootstrap/Laws.antt =====
-- Which seeds the checks accept.
use infrastructure_managemen.Common.{
  ℕ, suc, String, ◌≡◌, ◌≢◌, ◌↔◌, refl, ap, sym, ◌∙◌, false, none, List, [], ◌∷◌, map, ◌==◌, All,
  subst,
}
use infrastructure_managemen.Common.Text.{trim_space}
use infrastructure_managemen.Common.Maps.{Map, lookup, insert, has}
use infrastructure_managemen.Common.Distinct.{AreDistinct, split_new}
use infrastructure_managemen.Inventory.Domain.{HostSeed}
use infrastructure_managemen.Inventory.Bootstrap.{
  Scan, first_scan, check_id, check_fqdn, check_seed, check_seeds, verdict, validate, SeedError,
}
use infrastructure_managemen.Inventory.Bootstrap.Scans.{
  IsClean, IsLabelled, check_id_iff, check_fqdn_iff, check_labels_iff, seen-check_id,
  seen-check_fqdn, seen-check_labels,
}

abbrev pub trimmed_id : HostSeed → String
trimmed_id h = trim_space h.id

abbrev pub trimmed_fqdn : HostSeed → String
trimmed_fqdn h = trim_space h.fqdn

-- A seed with an id, an FQDN and its labels.
pub record IsComplete (h : HostSeed) : Type 0 where
  pub id : (trimmed_id h == "") ≡ false
  pub fqdn : (trimmed_fqdn h == "") ≡ false
  pub labels : IsLabelled h.labels

-- A seed that is complete and new.
record IsFresh (h : HostSeed) (s : Scan) : Type 0 where
  clean : IsClean s
  complete : IsComplete h
  id : has (trimmed_id h) s.seen_ids ≡ false
  fqdn : has (trimmed_fqdn h) s.seen_fqdn ≡ false

check_seed_sound : (i : ℕ) (h : HostSeed) (s : Scan) → IsClean (check_seed i h s) → IsFresh h s
unfolding check_seed
check_seed_sound i h s e =
    let s₁ = check_id i (trimmed_id h) s in
    let (clean₂, labelled) = (check_labels_iff i h.labels (check_fqdn i (trimmed_fqdn h) s₁)).0 e in
    let (clean₁, (fqdn, fqdn_new)) = (check_fqdn_iff i (trimmed_fqdn h) s₁).0 clean₂ in
    let (clean, (id, id_new)) = (check_id_iff i (trimmed_id h) s).0 clean₁ in
    record {
      clean = clean;
      complete = record { id = id; fqdn = fqdn; labels = labelled };
      id = id_new;
      fqdn = sym (ap (has (trimmed_fqdn h)) (seen-check_id i (trimmed_id h) s).1) ∙ fqdn_new;
    }

check_seed_complete : (i : ℕ) (h : HostSeed) (s : Scan) → IsFresh h s → IsClean (check_seed i h s)
unfolding check_seed
check_seed_complete i h s f =
    let s₁ = check_id i (trimmed_id h) s in
    (check_labels_iff i h.labels (check_fqdn i (trimmed_fqdn h) s₁)).1 (
      (check_fqdn_iff i (trimmed_fqdn h) s₁).1 (
        (check_id_iff i (trimmed_id h) s).1 (f.clean, (f.complete.id, f.id)),
        (f.complete.fqdn, ap (has (trimmed_fqdn h)) (seen-check_id i (trimmed_id h) s).1 ∙ f.fqdn),
      ),
      f.complete.labels,
    )

-- What a complete seed leaves among the seen texts.
seen-check_seed :
    (i : ℕ) (h : HostSeed) (s : Scan)
    → IsComplete h
    → ((check_seed i h s).seen_ids ≡ insert (trimmed_id h) tt s.seen_ids)
      × ((check_seed i h s).seen_fqdn ≡ insert (trimmed_fqdn h) tt s.seen_fqdn)
unfolding check_seed
seen-check_seed i h s c =
    let s₁ = check_id i (trimmed_id h) s in
    let (p₃, q₃) = seen-check_labels i h.labels (check_fqdn i (trimmed_fqdn h) s₁) in
    let (p₂, q₂) = seen-check_fqdn i (trimmed_fqdn h) s₁ in
    let (p₁, q₁) = seen-check_id i (trimmed_id h) s in
    (p₃ ∙ p₂ ∙ p₁ ∙ rw c.id refl, q₃ ∙ q₂ ∙ rw c.fqdn (ap (insert (trimmed_fqdn h) tt) q₁))

-- Texts that are all new, and are put among the seen ones one by one.
AreNew : Map (Unit {0}) → List String → Type 0
AreNew m [] = Unit
AreNew m (x ∷ xs) = (has x m ≡ false) × AreNew (insert x tt m) xs

-- A list without errors, from a scan on.
record IsAccepted (hs : List HostSeed) (s : Scan) : Type 0 where
  clean : IsClean s
  complete : All IsComplete hs
  ids : AreNew s.seen_ids (map trimmed_id hs)
  fqdns : AreNew s.seen_fqdn (map trimmed_fqdn hs)

check_seeds_sound :
    (i : ℕ) (hs : List HostSeed) (s : Scan) → IsClean (check_seeds i hs s) → IsAccepted hs s
unfolding check_seeds AreNew
check_seeds_sound i [] s e = record { clean = e; complete = tt; ids = tt; fqdns = tt }
check_seeds_sound i (h ∷ hs) s e =
    let rest = check_seeds_sound (suc i) hs (check_seed i h s) e in
    let f = check_seed_sound i h s rest.clean in
    let (p, q) = seen-check_seed i h s f.complete in
    record {
      clean = f.clean;
      complete = (f.complete, rest.complete);
      ids = (f.id, subst (λ (m : Map (Unit {0})). AreNew m (map trimmed_id hs)) p rest.ids);
      fqdns = (f.fqdn, subst (λ (m : Map (Unit {0})). AreNew m (map trimmed_fqdn hs)) q rest.fqdns);
    }

check_seeds_complete :
    (i : ℕ) (hs : List HostSeed) (s : Scan) → IsAccepted hs s → IsClean (check_seeds i hs s)
unfolding check_seeds AreNew
check_seeds_complete i [] s a = a.clean
check_seeds_complete i (h ∷ hs) s a =
    let (p, q) = seen-check_seed i h s a.complete.0 in
    check_seeds_complete (suc i) hs (check_seed i h s) (record {
      clean =
          check_seed_complete i h s
            (record { clean = a.clean; complete = a.complete.0; id = a.ids.0; fqdn = a.fqdns.0 });
      complete = a.complete.1;
      ids = subst (λ (m : Map (Unit {0})). AreNew m (map trimmed_id hs)) (sym p) a.ids.1;
      fqdns = subst (λ (m : Map (Unit {0})). AreNew m (map trimmed_fqdn hs)) (sym q) a.fqdns.1;
    })

AreNew-AreDistinct :
    (xs : List String) (m : Map (Unit {0}))
    → AreNew m xs ↔ All (λ (y : String). has y m ≡ false) xs × AreDistinct xs
unfolding AreNew AreDistinct
AreNew-AreDistinct [] m = (λ h. (tt, tt), λ h. tt)
AreNew-AreDistinct (x ∷ xs) m =
    let (to, from) = AreNew-AreDistinct xs (insert x tt m) in
    let (split, join) = split_new x xs m in
    (
      λ h. let (a, d) = to h.1 in ((h.0, (split a).1), ((split a).0, d)),
      λ h. (h.0.0, from (join (h.1.0, h.0.1), h.1.1)),
    )

none_seen :
    (xs : List String) → All (λ (y : String). has y (let m : Map (Unit {0}) = [] in m) ≡ false) xs
unfolding has lookup
none_seen [] = tt
none_seen (x ∷ xs) = (refl, none_seen xs)

-- What the checks ask of the seeds.
pub record AreValid (hs : List HostSeed) : Type 0 where
  pub some_host : hs ≢ []
  pub complete : All IsComplete hs
  pub ids : AreDistinct (map trimmed_id hs)
  pub fqdns : AreDistinct (map trimmed_fqdn hs)

verdict_iff : (es : List SeedError) → (verdict es ≡ none) ↔ (es ≡ [])
verdict_iff [] = (λ h. refl, λ h. refl)
verdict_iff (e ∷ es) = (λ h. absurd (cc), λ h. absurd (cc))

-- validate accepts exactly the lists with a host in which every host has an id, an FQDN and the three required
-- labels, none of them blank, and no two hosts have the same id or the same FQDN up to surrounding space.
pub validate_iff : (hs : List HostSeed) → (validate hs ≡ none) ↔ AreValid hs
unfolding validate
validate_iff [] = (λ h. absurd (cc), λ v. absurd (v.some_host refl))
validate_iff (h ∷ hs) = (
  λ e.
      let a = check_seeds_sound 0 (h ∷ hs) first_scan ((verdict_iff _).0 e) in
      record {
        some_host = λ n. cc;
        complete = a.complete;
        ids = ((AreNew-AreDistinct (map trimmed_id (h ∷ hs)) []).0 a.ids).1;
        fqdns = ((AreNew-AreDistinct (map trimmed_fqdn (h ∷ hs)) []).0 a.fqdns).1;
      },
  λ v. (verdict_iff _).1 (
      check_seeds_complete 0 (h ∷ hs) first_scan (record {
        clean = refl;
        complete = v.complete;
        ids =
            (AreNew-AreDistinct (map trimmed_id (h ∷ hs)) []).1
              (none_seen (map trimmed_id (h ∷ hs)), v.ids);
        fqdns =
            (AreNew-AreDistinct (map trimmed_fqdn (h ∷ hs)) []).1
              (none_seen (map trimmed_fqdn (h ∷ hs)), v.fqdns);
      })),
)
