-- ===== src/Inventory/Bootstrap/Scans.antt =====
-- What each check of a seed leaves in the scan: when it adds no error, and what it has seen.
use infrastructure_managemen.Common.{
  ℕ, String, ◌≡◌, ◌↔◌, refl, ap, ◌∙◌, inl, inr, Bool, true, false, Option, none, some, List, [],
  ◌∷◌, ◌==◌, if◌then◌else◌, All, Bool-cases,
}
use infrastructure_managemen.Common.Checks.{snoc-ne-nil}
use infrastructure_managemen.Common.Maps.{Map, insert, has}
use infrastructure_managemen.Inventory.Bootstrap.{
  SeedError, Scan, add_if, see_id, see_fqdn, check_id, check_fqdn, lacks, required_labels,
  check_required, check_labels, id_required, id_duplicated, fqdn_required, fqdn_duplicated,
  labels_required, label_required,
}

-- No error so far.
abbrev pub IsClean : Scan → Type 0
IsClean s = s.errs ≡ []

add_if_iff :
    (b : Bool) (e : SeedError) (s : Scan) → IsClean (add_if b e s) ↔ IsClean s × (b ≡ false)
unfolding add_if
add_if_iff true e s = (λ h. absurd (snoc-ne-nil s.errs e h), λ h. absurd (cc))
add_if_iff false e s = (λ h. (h, refl), λ h. h.0)

pub check_id_iff :
    (i : ℕ) (id : String) (s : Scan)
    → IsClean (check_id i id s) ↔ IsClean s × (((id == "") ≡ false) × (has id s.seen_ids ≡ false))
unfolding check_id see_id
check_id_iff i id s = elim (Bool-cases (id == "")) [
  | inl blank ↦
      rw blank
        (λ h. absurd (let p = (add_if_iff true (id_required i) s).0 h in cc), λ h. absurd (cc))
  | inr named ↦
      let (to, from) = add_if_iff (has id s.seen_ids) (id_duplicated i id) s in
      rw named (λ h. ((to h).0, (refl, (to h).1)), λ h. from (h.0, h.1.1))
]

pub check_fqdn_iff :
    (i : ℕ) (fqdn : String) (s : Scan)
    → IsClean (check_fqdn i fqdn s)
      ↔ IsClean s × (((fqdn == "") ≡ false) × (has fqdn s.seen_fqdn ≡ false))
unfolding check_fqdn see_fqdn
check_fqdn_iff i fqdn s = elim (Bool-cases (fqdn == "")) [
  | inl blank ↦
      rw blank
        (λ h. absurd (let p = (add_if_iff true (fqdn_required i) s).0 h in cc), λ h. absurd (cc))
  | inr named ↦
      let (to, from) = add_if_iff (has fqdn s.seen_fqdn) (fqdn_duplicated i fqdn) s in
      rw named (λ h. ((to h).0, (refl, (to h).1)), λ h. from (h.0, h.1.1))
]

check_required_iff :
    (i : ℕ) (labels : Map String) (names : List String) (s : Scan)
    → IsClean (check_required i labels names s)
      ↔ IsClean s × All (λ (name : String). lacks name labels ≡ false) names
unfolding check_required
check_required_iff i labels [] s = (λ h. (h, tt), λ h. h.0)
check_required_iff i labels (name ∷ names) s =
    let (to, from) = add_if_iff (lacks name labels) (label_required i name) s in
    let (to_rest, from_rest) =
      check_required_iff i labels names (add_if (lacks name labels) (label_required i name) s) in
    (
      λ h. ((to (to_rest h).0).0, ((to (to_rest h).0).1, (to_rest h).1)),
      λ h. from_rest (from (h.0, h.1.0), h.1.1),
    )

-- The labels are there, and the required ones are not blank.
pub IsLabelled : Option (Map String) → Type 0
IsLabelled none = ⊥
IsLabelled (some labels) = All (λ (name : String). lacks name labels ≡ false) required_labels

pub check_labels_iff :
    (i : ℕ) (labels : Option (Map String)) (s : Scan)
    → IsClean (check_labels i labels s) ↔ IsClean s × IsLabelled labels
unfolding check_labels IsLabelled
check_labels_iff i none s =
    (λ h. absurd (let p = (add_if_iff true (labels_required i) s).0 h in cc), λ h. absurd h.1)
check_labels_iff i (some labels) s = check_required_iff i labels required_labels s

seen-add_if :
    (b : Bool) (e : SeedError) (s : Scan)
    → ((add_if b e s).seen_ids ≡ s.seen_ids) × ((add_if b e s).seen_fqdn ≡ s.seen_fqdn)
unfolding add_if
seen-add_if true e s = (refl, refl)
seen-add_if false e s = (refl, refl)

pub seen-check_id :
    (i : ℕ) (id : String) (s : Scan)
    → ((check_id i id s).seen_ids ≡ (if id == "" then s.seen_ids else insert id tt s.seen_ids))
      × ((check_id i id s).seen_fqdn ≡ s.seen_fqdn)
unfolding check_id see_id
seen-check_id i id s = elim (Bool-cases (id == "")) [
  | inl blank ↦ rw blank (seen-add_if true (id_required i) s)
  | inr named ↦
      let (ids, fqdns) = seen-add_if (has id s.seen_ids) (id_duplicated i id) s in
      rw named (ap (insert id tt) ids, fqdns)
]

pub seen-check_fqdn :
    (i : ℕ) (fqdn : String) (s : Scan)
    → ((check_fqdn i fqdn s).seen_ids ≡ s.seen_ids)
      × ((check_fqdn i fqdn s).seen_fqdn
          ≡ (if fqdn == "" then s.seen_fqdn else insert fqdn tt s.seen_fqdn))
unfolding check_fqdn see_fqdn
seen-check_fqdn i fqdn s = elim (Bool-cases (fqdn == "")) [
  | inl blank ↦ rw blank (seen-add_if true (fqdn_required i) s)
  | inr named ↦
      let (ids, fqdns) = seen-add_if (has fqdn s.seen_fqdn) (fqdn_duplicated i fqdn) s in
      rw named (ids, ap (insert fqdn tt) fqdns)
]

pub seen-check_required :
    (i : ℕ) (labels : Map String) (names : List String) (s : Scan)
    → ((check_required i labels names s).seen_ids ≡ s.seen_ids)
      × ((check_required i labels names s).seen_fqdn ≡ s.seen_fqdn)
unfolding check_required
seen-check_required i labels [] s = (refl, refl)
seen-check_required i labels (name ∷ names) s =
    let (p, q) = seen-add_if (lacks name labels) (label_required i name) s in
    let (p', q') =
      seen-check_required i labels names (add_if (lacks name labels) (label_required i name) s) in
    (p' ∙ p, q' ∙ q)

pub seen-check_labels :
    (i : ℕ) (labels : Option (Map String)) (s : Scan)
    → ((check_labels i labels s).seen_ids ≡ s.seen_ids)
      × ((check_labels i labels s).seen_fqdn ≡ s.seen_fqdn)
unfolding check_labels
seen-check_labels i none s = seen-add_if true (labels_required i) s
seen-check_labels i (some labels) s = seen-check_required i labels required_labels s
