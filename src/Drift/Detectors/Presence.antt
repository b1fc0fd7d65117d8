-- ===== src/Drift/Detectors/Presence.antt =====
-- What a desired host asks for and what an actual host has, as the detectors see it.
use mathlib.Core.List.{Memᴰ}
use infrastructure_managemen.Common.{
  String, ◌≡◌, refl, subst, ◌↔◌, Bool, true, false, not, ◌&&◌, none, some, List, [], ◌∷◌, arith,
  Bool-cases, Option-cases, inl, inr,
}
use infrastructure_managemen.Common.Maps.{lookup}
use infrastructure_managemen.Common.Text.{trim_space, equal_fold}
use infrastructure_managemen.Drift.Domain.{
  Component, DesiredWorkload, DesiredHost, desired_workload, find_workload, ActualHost,
  ActualWorkload, ActualSourceStatus, has_workload, any_workload, is_source_healthy,
}
use infrastructure_managemen.Drift.Detectors.{is_wanted}

-- The name is the component's, up to space and case.
abbrev pub IsNamed : Component → String → Type 0
IsNamed component name = equal_fold (trim_space name) component ≡ true

-- `w` is the first workload of the list that has the component's name.
pub data First (component : Component) (w : DesiredWorkload) : List DesiredWorkload → Type 0 where
  here : {ws : List DesiredWorkload} → IsNamed component w.name → First component w (w ∷ ws)
  there :
      {v : DesiredWorkload} {ws : List DesiredWorkload}
      → ¬ IsNamed component v.name
      → First component w ws
      → First component w (v ∷ ws)

-- The first workload of the component's name is enabled and runs in a container.
pub record IsDemanded (desired : DesiredHost) (component : Component) : Type 0 where
  pub workload : DesiredWorkload
  pub first : First component workload desired.workloads
  pub enabled : workload.enabled ≡ true
  pub contained : equal_fold (trim_space workload.deployment_mode) "container" ≡ true

-- The source is enabled and reports ok.
pub record IsObserved (actual : ActualHost) (source : String) : Type 0 where
  pub status : ActualSourceStatus
  pub found : lookup source actual.source_status ≡ some status
  pub enabled : status.enabled ≡ true
  pub healthy : equal_fold (trim_space status.status) "ok" ≡ true

-- The host lists a workload of the component's name.
pub record IsPresent (actual : ActualHost) (component : Component) : Type 0 where
  pub workload : ActualWorkload
  pub listed : Memᴰ workload actual.workloads
  pub named : IsNamed component workload.name

first-find_workload :
    (component : Component) (w : DesiredWorkload) (ws : List DesiredWorkload)
    → find_workload component ws ≡ some w
    → First component w ws
unfolding find_workload
first-find_workload component w [] h = absurd (cc)
first-find_workload component w (v ∷ ws) h =
    elim (Bool-cases (equal_fold (trim_space v.name) component)) [
      | inl e ↦
          let got : some v ≡ some w = rw e at h in
          let same : v ≡ w = cc in
          subst (λ (u : DesiredWorkload). First component u (v ∷ ws)) same (here e)
      | inr e ↦ there (λ yes. absurd (cc)) (first-find_workload component w ws (ground arith))
    ]

find_workload-first :
    (component : Component) (w : DesiredWorkload) (ws : List DesiredWorkload)
    → First component w ws
    → find_workload component ws ≡ some w
unfolding find_workload
find_workload-first component w _ (here named) = rw named refl
find_workload-first component w _ (there {v} {ws} other first) =
    let rest = find_workload-first component w ws first in
    elim (Bool-cases (equal_fold (trim_space v.name) component)) [
      | inl e ↦ absurd (other e)
      | inr e ↦ rw e rest
    ]

any_workload-IsPresent :
    (component : Component) (ws : List ActualWorkload)
    → any_workload component ws ≡ true
    → (w : ActualWorkload) × Memᴰ w ws × IsNamed component w.name
unfolding any_workload
any_workload-IsPresent component [] h = absurd (cc)
any_workload-IsPresent component (v ∷ ws) h =
    elim (Bool-cases (equal_fold (trim_space v.name) component)) [
      | inl e ↦ (v, Memᴰ.head refl, e)
      | inr e ↦
          let (w, listed, named) = any_workload-IsPresent component ws (ground arith) in
          (w, Memᴰ.tail listed, named)
    ]

IsPresent-any_workload :
    (component : Component) (w : ActualWorkload) (ws : List ActualWorkload)
    → Memᴰ w ws
    → IsNamed component w.name
    → any_workload component ws ≡ true
unfolding any_workload
IsPresent-any_workload component w _ (Memᴰ.head {x = v} {xs = ws} e) named =
    subst (λ (u : ActualWorkload). any_workload component (u ∷ ws) ≡ true) e (rw named refl)
IsPresent-any_workload component w _ (Memᴰ.tail {x = v} {xs = ws} m) named =
    let rest = IsPresent-any_workload component w ws m named in ground arith

-- A decided proposition and its negation.
pub not_iff {ℓ} : {P : Type ℓ} (b : Bool) → ((b ≡ true) ↔ P) → ((not b ≡ true) ↔ (¬ P))
not_iff true (to, from) = (λ h. absurd (cc), λ h. absurd (h (to refl)))
not_iff false (to, from) = (λ h p. absurd (let e = from p in cc), λ h. refl)

-- Two decided propositions at once.
pub both_iff {ℓ k} :
    {P : Type ℓ} {Q : Type k} (b c : Bool)
    → ((b ≡ true) ↔ P)
    → ((c ≡ true) ↔ Q)
    → ((b && c) ≡ true) ↔ (P × Q)
both_iff true c (to, from) (to', from') = (λ h. (to refl, to' h), λ h. from' h.1)
both_iff false c (to, from) (to', from') = (λ h. absurd (cc), λ h. absurd (let e = from h.0 in cc))

pub has_workload_iff :
    (actual : ActualHost) (component : Component)
    → (has_workload actual component ≡ true) ↔ IsPresent actual component
unfolding has_workload
has_workload_iff actual component = (
  λ h.
      let (w, listed, named) = any_workload-IsPresent component actual.workloads h in
      record { workload = w; listed = listed; named = named },
  λ p. IsPresent-any_workload component p.workload actual.workloads p.listed p.named,
)

pub is_source_healthy_iff :
    (actual : ActualHost) (source : String)
    → (is_source_healthy actual source ≡ true) ↔ IsObserved actual source
unfolding is_source_healthy
is_source_healthy_iff actual source = (
  λ h. elim (Option-cases (lookup source actual.source_status)) [
    | inl e ↦ absurd (ground arith)
    | inr (s, e) ↦ record { status = s; found = e; enabled = ground arith; healthy = ground arith }
  ],
  λ p. rw p.found (rw p.enabled p.healthy),
)

-- The desired state asks for the component.
abbrev pub wants : DesiredHost → Component → Bool
wants desired component = elim (desired_workload desired component) [
  | none ↦ false
  | some w ↦ is_wanted w
]

pub wants_iff :
    (desired : DesiredHost) (component : Component)
    → (wants desired component ≡ true) ↔ IsDemanded desired component
unfolding desired_workload is_wanted
wants_iff desired component = (
  λ h. elim (Option-cases (find_workload component desired.workloads)) [
    | inl e ↦ absurd (ground arith)
    | inr (w, e) ↦ record {
      workload = w;
      first = first-find_workload component w desired.workloads e;
      enabled = ground arith;
      contained = ground arith;
    }
  ],
  λ p.
      rw (wants, find_workload-first component p.workload desired.workloads p.first, p.enabled)
        p.contained,
)
