-- ===== src/Inventory/Filter/Laws.antt =====
-- What a filter by labels keeps.
use mathlib.Core.List.{Memᴰ}
use infrastructure_managemen.Common.{
  String, ◌≡◌, ◌↔◌, ◌⊎◌, inl, inr, refl, ap, sym, ◌∙◌, Bool, true, false, Option, none, some, List,
  [], ◌∷◌, arith, eq_iff, All,
}
use infrastructure_managemen.Common.Maps.{Map, lookup}
use infrastructure_managemen.Inventory.Domain.{Host, clone_host, clone_hosts}
use infrastructure_managemen.Inventory.Domain.Clones.{HasMaps, clone_host-eq}
use infrastructure_managemen.Inventory.Filter.{
  has_value, host_matches_all_filters, append_if, matching_hosts, filter_hosts_by_labels,
}

-- The host has every label of the filter with its value.
pub HasLabels : Host → Map String → Type 0
HasLabels h filters = All (λ (f : String × String). lookup f.0 h.labels ≡ some f.1) filters

has_value_iff : (o : Option String) (v : String) → (has_value o v ≡ true) ↔ (o ≡ some v)
has_value_iff none v = (λ e. absurd (cc), λ e. absurd (cc))
has_value_iff (some u) v = (λ e. ap some ((eq_iff u v).0 e), λ e. (eq_iff u v).1 (cc))

host_matches_iff :
    (h : Host) (filters : Map String)
    → (host_matches_all_filters h filters ≡ true) ↔ HasLabels h filters
unfolding host_matches_all_filters HasLabels
host_matches_iff h [] = (λ e. tt, λ e. refl)
host_matches_iff h ((k, v) ∷ filters) =
    let (to, from) = has_value_iff (lookup k h.labels) v in
    let (to_rest, from_rest) = host_matches_iff h filters in
    (
      λ e. (to (ground arith), to_rest (ground arith)),
      λ p.
          let first : has_value (lookup k h.labels) v ≡ true = from p.0 in
          let rest : host_matches_all_filters h filters ≡ true = from_rest p.1 in ground arith,
    )

-- Without a filter every host matches, as the two loops of the code agree.
matching_hosts-nil : (hs : List Host) → matching_hosts hs [] ≡ clone_hosts hs
unfolding matching_hosts host_matches_all_filters clone_hosts
matching_hosts-nil [] = refl
matching_hosts-nil (h ∷ hs) = ap (◌∷◌ (clone_host h)) (matching_hosts-nil hs)

filter_hosts_by_labels-eq :
    (hs : List Host) (filters : Map String)
    → filter_hosts_by_labels hs filters ≡ matching_hosts hs filters
unfolding filter_hosts_by_labels
filter_hosts_by_labels-eq hs [] = sym (matching_hosts-nil hs)
filter_hosts_by_labels-eq hs (f ∷ filters) = refl

-- A host that a turn of the loop leaves in the result was there before, or is the loop's own and matches.
append_if_sound :
    (b : Bool) (x h : Host) (rest : List Host)
    → HasMaps x
    → Memᴰ h (append_if b x rest)
    → ((h ≡ x) × (b ≡ true)) ⊎ Memᴰ h rest
append_if_sound false x h rest m p = inr p
append_if_sound true x h rest m (Memᴰ.head e) = inl (e ∙ clone_host-eq x m, refl)
append_if_sound true x h rest m (Memᴰ.tail p) = inr p

append_if_head :
    (b : Bool) (x h : Host) (rest : List Host)
    → HasMaps x
    → h ≡ x
    → b ≡ true
    → Memᴰ h (append_if b x rest)
append_if_head true x h rest m e t = Memᴰ.head (e ∙ sym (clone_host-eq x m))
append_if_head false x h rest m e t = absurd (cc)

append_if_tail :
    (b : Bool) (x h : Host) (rest : List Host) → Memᴰ h rest → Memᴰ h (append_if b x rest)
append_if_tail true x h rest p = Memᴰ.tail p
append_if_tail false x h rest p = p

matching_hosts_sound :
    (filters : Map String) (h : Host) (hs : List Host)
    → All HasMaps hs
    → Memᴰ h (matching_hosts hs filters)
    → Memᴰ h hs × (host_matches_all_filters h filters ≡ true)
unfolding matching_hosts
matching_hosts_sound filters h [] m p = elim p [ ]
matching_hosts_sound filters h (x ∷ xs) m p =
    elim (append_if_sound (host_matches_all_filters x filters) x h (matching_hosts xs filters) m.0
      p) [
        | inl (same, matches) ↦ (Memᴰ.head same, cc)
        | inr later ↦
            let (i, matches) = matching_hosts_sound filters h xs m.1 later in (Memᴰ.tail i, matches)
      ]

matching_hosts_complete :
    (filters : Map String) (h : Host) (hs : List Host)
    → All HasMaps hs
    → host_matches_all_filters h filters ≡ true
    → Memᴰ h hs
    → Memᴰ h (matching_hosts hs filters)
unfolding matching_hosts
matching_hosts_complete filters h [] m t p = elim p [ ]
matching_hosts_complete filters h (x ∷ xs) m t (Memᴰ.head e) =
    append_if_head (host_matches_all_filters x filters) x h _ m.0 e (cc)
matching_hosts_complete filters h (x ∷ xs) m t (Memᴰ.tail p) =
    append_if_tail (host_matches_all_filters x filters) x h _
      (matching_hosts_complete filters h xs m.1 t p)

-- FilterHostsByLabels, with an empty filter or not, returns exactly the hosts of the list that have every
-- label of the filter with its value, when the maps of each host have each key once.
pub filter_hosts_by_labels_iff :
    (filters : Map String) (h : Host) (hs : List Host)
    → All HasMaps hs
    → Memᴰ h (filter_hosts_by_labels hs filters) ↔ Memᴰ h hs × HasLabels h filters
filter_hosts_by_labels_iff filters h hs m = rw (filter_hosts_by_labels-eq hs filters) (
  λ p.
      let (i, matches) = matching_hosts_sound filters h hs m p in
      (i, (host_matches_iff h filters).0 matches),
  λ p. matching_hosts_complete filters h hs m ((host_matches_iff h filters).1 p.1) p.0,
)
