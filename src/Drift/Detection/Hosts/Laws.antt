-- ===== src/Drift/Detection/Hosts/Laws.antt =====
-- The index finds the last host of the list with the wanted name.
use mathlib.Core.List.{Memᴰ}
use infrastructure_managemen.Common.{
  String, ◌≡◌, refl, ap, ap₂, sym, ◌∙◌, ◌⊎◌, inl, inr, false, Option, none, some, List, [], ◌∷◌,
  arith, ◌==◌, eq_iff, if◌then◌else◌, Bool-cases, Option-cases,
}
use infrastructure_managemen.Common.Maps.{Map, lookup, lookup-insert}
use infrastructure_managemen.Drift.Domain.{DesiredHost, ActualHost}
use infrastructure_managemen.Drift.Detection.Hosts.{
  Index, normalized, put_unless_empty, index_host, index_loop, index_actual_hosts,
  lookup_unless_empty, or_else, lookup_actual_host,
}

-- The last host whose name, up to surrounding space and case, is the key.
pub last_match : (ActualHost → String) → String → List ActualHost → Option ActualHost
last_match name key [] = none
last_match name key (h ∷ hs) =
    or_else (last_match name key hs) (if normalized (name h) == key then some h else none)

lookup-put_unless_empty :
    (key k : String) (h : ActualHost) (m : Map ActualHost)
    → (key == "") ≡ false
    → lookup key (put_unless_empty k h m)
      ≡ or_else (if k == key then some h else none) (lookup key m)
unfolding put_unless_empty
lookup-put_unless_empty key k h m ne =
    ground (arith, lookup-insert k key h m, eq_iff k key, eq_iff k "", eq_iff key "")

or_else_assoc : (a b c : Option ActualHost) → or_else a (or_else b c) ≡ or_else (or_else a b) c
or_else_assoc none b c = refl
or_else_assoc (some h) b c = refl

or_else-none : (a : Option ActualHost) → or_else a none ≡ a
or_else-none none = refl
or_else-none (some h) = refl

lookup-index_loop_id :
    (key : String) (hs : List ActualHost) (ix : Index)
    → (key == "") ≡ false
    → lookup key (index_loop ix hs).hosts_by_id
      ≡ or_else (last_match (λ h. h.host_id) key hs) (lookup key ix.hosts_by_id)
unfolding index_loop last_match index_host
lookup-index_loop_id key [] ix ne = refl
lookup-index_loop_id key (h ∷ hs) ix ne =
    lookup-index_loop_id key hs (index_host ix h) ne
    ∙ ap (or_else (last_match (λ h. h.host_id) key hs))
        (lookup-put_unless_empty key (normalized h.host_id) h ix.hosts_by_id ne)
    ∙ or_else_assoc (last_match (λ h. h.host_id) key hs) _ _

lookup-index_loop_fqdn :
    (key : String) (hs : List ActualHost) (ix : Index)
    → (key == "") ≡ false
    → lookup key (index_loop ix hs).hosts_by_fqdn
      ≡ or_else (last_match (λ h. h.fqdn) key hs) (lookup key ix.hosts_by_fqdn)
unfolding index_loop last_match index_host
lookup-index_loop_fqdn key [] ix ne = refl
lookup-index_loop_fqdn key (h ∷ hs) ix ne =
    lookup-index_loop_fqdn key hs (index_host ix h) ne
    ∙ ap (or_else (last_match (λ h. h.fqdn) key hs))
        (lookup-put_unless_empty key (normalized h.fqdn) h ix.hosts_by_fqdn ne)
    ∙ or_else_assoc (last_match (λ h. h.fqdn) key hs) _ _

-- The last match for a name that is not blank.
abbrev pub match_by : (ActualHost → String) → String → List ActualHost → Option ActualHost
match_by name wanted hosts =
    if normalized wanted == "" then none else last_match name (normalized wanted) hosts

lookup_by_id :
    (wanted : String) (hosts : List ActualHost)
    → lookup_unless_empty (normalized wanted) (index_actual_hosts hosts).hosts_by_id
      ≡ match_by (λ h. h.host_id) wanted hosts
unfolding lookup_unless_empty index_actual_hosts lookup
lookup_by_id wanted hosts = elim (Bool-cases (normalized wanted == "")) [
  | inl blank ↦ rw blank
  | inr ne ↦ rw ne (lookup-index_loop_id (normalized wanted) hosts _ ne ∙ or_else-none _)
]

lookup_by_fqdn :
    (wanted : String) (hosts : List ActualHost)
    → lookup_unless_empty (normalized wanted) (index_actual_hosts hosts).hosts_by_fqdn
      ≡ match_by (λ h. h.fqdn) wanted hosts
unfolding lookup_unless_empty index_actual_hosts lookup
lookup_by_fqdn wanted hosts = elim (Bool-cases (normalized wanted == "")) [
  | inl blank ↦ rw blank
  | inr ne ↦ rw ne (lookup-index_loop_fqdn (normalized wanted) hosts _ ne ∙ or_else-none _)
]

-- The actual host of a desired one is the last host of the list with its id, and if there is none the
-- last with its FQDN, both compared up to surrounding space and case; a blank id or FQDN finds none.
pub lookup_actual_host_lem :
    (desired : DesiredHost) (hosts : List ActualHost)
    → lookup_actual_host desired (index_actual_hosts hosts)
      ≡ or_else
          (match_by (λ h. h.host_id) desired.host_id hosts)
          (match_by (λ h. h.fqdn) desired.fqdn hosts)
unfolding lookup_actual_host
lookup_actual_host_lem desired hosts =
    ap₂ or_else (lookup_by_id desired.host_id hosts) (lookup_by_fqdn desired.fqdn hosts)

-- A match is a host of the list with the wanted name.
last_match_sound :
    (name : ActualHost → String) (key : String) (hs : List ActualHost) {found : ActualHost}
    → last_match name key hs ≡ some found
    → Memᴰ found hs × (normalized (name found) ≡ key)
unfolding last_match
last_match_sound name key [] h = cc
last_match_sound name key (x ∷ hs) {found} h = elim (Option-cases (last_match name key hs)) [
  | inl missing ↦
      let e : x ≡ found = ground arith in
      (Memᴰ.head (sym e), rw (← e) ((eq_iff (normalized (name x)) key).0 (ground arith)))
  | inr (later, e) ↦
      let (m, eq) = last_match_sound name key hs {found = found} (ground arith) in (Memᴰ.tail m, eq)
]

match_by_sound :
    (name : ActualHost → String) (wanted : String) (hs : List ActualHost) {found : ActualHost}
    → match_by name wanted hs ≡ some found
    → Memᴰ found hs × (normalized (name found) ≡ normalized wanted)
match_by_sound name wanted hs h = last_match_sound name (normalized wanted) hs (ground arith)

-- A host that is found is one of the actual hosts, and has the id or the FQDN of the desired host up to
-- surrounding space and case.
pub lookup_actual_host_sound :
    (desired : DesiredHost) (hosts : List ActualHost) (found : ActualHost)
    → lookup_actual_host desired (index_actual_hosts hosts) ≡ some found
    → Memᴰ found hosts
      × ((normalized found.host_id ≡ normalized desired.host_id)
          ⊎ (normalized found.fqdn ≡ normalized desired.fqdn))
lookup_actual_host_sound desired hosts found h =
    elim (Option-cases (match_by (λ a. a.host_id) desired.host_id hosts)) [
      | inl missing ↦
          let (m, e) =
            match_by_sound (λ a. a.fqdn) desired.fqdn hosts {found = found}
              (ground (arith, lookup_actual_host_lem desired hosts)) in
          (m, inr e)
      | inr (a, e) ↦
          let (m, e) =
            match_by_sound (λ a. a.host_id) desired.host_id hosts {found = found}
              (ground (arith, lookup_actual_host_lem desired hosts)) in
          (m, inl e)
    ]
