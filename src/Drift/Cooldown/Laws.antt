-- ===== src/Drift/Cooldown/Laws.antt =====
-- When the cooldown lets a request pass, and which requests share a key.
use Prim.Native.Char.{code}
use Prim.Native.String.{String, [], ◌∷◌}
use text.Mathlib.TextLemmas.{cons-append, append_cancel_left}
use infrastructure_managemen.Common.{
  ℕ, ◌≡◌, ◌≢◌, ap, sym, ◌∙◌, ◌||◌, ◌↔◌, ◌⊎◌, inl, inr, true, false, some, arith, ◌==◌,
  if◌then◌else◌, Bool-cases, Option-cases,
}
use infrastructure_managemen.Common.Int.{pos, ◌-ℤ◌, ◌≤ℤ◌, leb_ℤ, leb_ℤ→≤ℤ, ≤ℤ→leb_ℤ}
use infrastructure_managemen.Common.Text.{trim_space, to_lower}
use infrastructure_managemen.Common.Maps.{lookup, lookup-insert}
use infrastructure_managemen.Common.Clock.{Time, Duration, sub, utc, wrap}
use infrastructure_managemen.Drift.Domain.{Component, node_exporter, cadvisor}
use infrastructure_managemen.Drift.Cooldown.{Store, build_key, can_send, mark_sent}

module _ (s : Store) (key : String) (now : Time) (cooldown : Duration) where
  can_send_sound :
      (can_send s key now cooldown).0 ≡ true
      → (cooldown ≤ℤ pos 0)
        ⊎ ((last : Time) → lookup key s.last_sent ≡ some last → cooldown ≤ℤ sub now last)
  unfolding can_send
  can_send_sound h = elim (Bool-cases (leb_ℤ cooldown (pos 0))) [
    | inl e ↦ inl (leb_ℤ→≤ℤ cooldown (pos 0) e)
    | inr e ↦ inr (λ last found. ground arith)
  ]

  can_send_complete :
      (cooldown ≤ℤ pos 0)
        ⊎ ((last : Time) → lookup key s.last_sent ≡ some last → cooldown ≤ℤ sub now last)
      → (can_send s key now cooldown).0 ≡ true
  unfolding can_send
  can_send_complete (inl h) = rw (≤ℤ→leb_ℤ cooldown (pos 0) h)
  can_send_complete (inr h) = elim (Option-cases (lookup key s.last_sent)) [
    | inl missing ↦ ground arith
    | inr (last, found) ↦ ground (arith, h last found)
  ]

-- A request passes exactly when the cooldown is not positive, or its key has no mark, or the mark is
-- at least the cooldown old.
pub can_send_iff :
    (s : Store) (key : String) (now : Time) (cooldown : Duration)
    → ((can_send s key now cooldown).0 ≡ true) ↔ (
        (cooldown ≤ℤ pos 0)
        ⊎ ((last : Time) → lookup key s.last_sent ≡ some last → cooldown ≤ℤ sub now last))
unfolding can_send
can_send_iff s key now cooldown =
    (can_send_sound s key now cooldown, can_send_complete s key now cooldown)

-- A refused request of a key with a mark has to wait the cooldown less the time since the mark, in 64 bits.
pub can_send-remaining :
    (s : Store) (key : String) (now last : Time) (cooldown : Duration)
    → lookup key s.last_sent ≡ some last
    → (can_send s key now cooldown).0 ≡ false
    → (can_send s key now cooldown).1 ≡ wrap (cooldown -ℤ sub now last)
unfolding can_send
can_send-remaining s key now last cooldown found h = ground arith

-- After a mark at a time, a request of the marked key passes exactly when the cooldown is not positive or
-- over since that time, and a request of any other key passes as before.
pub can_send-mark_sent :
    (s : Store) (key other : String) (at now : Time) (cooldown : Duration)
    → (can_send (mark_sent s key at) other now cooldown).0 ≡ (
        if key == other
        then (leb_ℤ cooldown (pos 0) || leb_ℤ cooldown (sub now (utc at)))
        else (can_send s other now cooldown).0)
unfolding can_send mark_sent
can_send-mark_sent s key other at now cooldown =
    ground (arith, lookup-insert key other (utc at) s.last_sent)

-- The text of a host's name in a key.
abbrev fqdn_key : String → String
fqdn_key fqdn = to_lower (trim_space fqdn)

-- A component that the detectors serve.
abbrev pub IsSupported : Component → Type 0
IsSupported c = (c ≡ node_exporter) ⊎ (c ≡ cadvisor)

-- The number of the first character.
abbrev first : String → ℕ
first [] = 0
first (c ∷ s) = code c

keys_differ : (f g : String) → build_key node_exporter f ≢ build_key cadvisor g
unfolding build_key to_lower
keys_differ f g h =
    omega
      (arith, ap first (sym (cons-append "n" "ode_exporter" _) ∙ h ∙ cons-append "c" "advisor" _))

same_key : (c : Component) (f g : String) → build_key c f ≡ build_key c g → fqdn_key f ≡ fqdn_key g
unfolding build_key
same_key c f g h = append_cancel_left "|" _ _ (append_cancel_left (to_lower c) _ _ h)

same_of :
    {c c' d d' : Component} (f g : String)
    → c ≡ c'
    → d ≡ d'
    → build_key c f ≡ build_key d g
    → build_key c' f ≡ build_key d' g
same_of f g p q h = cc (p, q)

build_key_inj :
    (c d : Component) (f g : String)
    → IsSupported c
    → IsSupported d
    → build_key c f ≡ build_key d g
    → (c ≡ d) × (fqdn_key f ≡ fqdn_key g)
build_key_inj c d f g (inl p) (inl q) h =
    (p ∙ sym q, same_key c f g (h ∙ ap (λ (k : Component). build_key k g) (q ∙ sym p)))
build_key_inj c d f g (inl p) (inr q) h = absurd (keys_differ f g (same_of f g p q h))
build_key_inj c d f g (inr p) (inl q) h = absurd (keys_differ g f (same_of g f q p (sym h)))
build_key_inj c d f g (inr p) (inr q) h =
    (p ∙ sym q, same_key c f g (h ∙ ap (λ (k : Component). build_key k g) (q ∙ sym p)))

-- Two supported components on two hosts share a key exactly when the components are the same and the
-- names of the hosts agree up to surrounding space and case.
pub build_key_iff :
    (c d : Component) (f g : String)
    → IsSupported c
    → IsSupported d
    → (build_key c f ≡ build_key d g)
      ↔ ((c ≡ d) × (to_lower (trim_space f) ≡ to_lower (trim_space g)))
build_key_iff c d f g p q = (build_key_inj c d f g p q, λ h. unfold build_key in cc (h.0, h.1))
