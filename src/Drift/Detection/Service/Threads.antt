-- ===== src/Drift/Detection/Service/Threads.antt =====
-- Callers of RunCycle that interleave: the start-up, the scheduler and the HTTP handlers each take the
-- service's lock for one of beginCycle, persistResult and finishCycle at a time.
use infrastructure_managemen.Common.{
  ℕ, ◌≡◌, Bool, true, false, arith, eqb, if◌then◌else◌, inl, inr, Bool-cases,
}
use infrastructure_managemen.Drift.Domain.{DetectionCycleResult}
use infrastructure_managemen.Drift.Cooldown
use infrastructure_managemen.Drift.Detection.Service.{
  Service, new_service, begin_cycle, finish_cycle, persist_result,
}

-- Where a caller stands: outside of RunCycle, in the cycle, or between persistResult and finishCycle.
pub data Caller : Type 0 where
  outside cycling persisted : Caller

abbrev pub inside : Caller → Bool
inside outside = false
inside cycling = true
inside persisted = true

abbrev pub move : (ℕ → Caller) → ℕ → Caller → ℕ → Caller
move at i c j = if eqb i j then c else at j

pub record System : Type 0 where
  pub service : Service
  pub at : ℕ → Caller

-- One step of the caller `i`.
pub data Step (s : System) : System → Type 0 where
  begin :
      (i : ℕ)
      → s.at i ≡ outside
      → (begin_cycle s.service).0 ≡ true
      → Step s (record { service = (begin_cycle s.service).1; at = move s.at i cycling })
  refuse :
      (i : ℕ)
      → s.at i ≡ outside
      → (begin_cycle s.service).0 ≡ false
      → Step s (record { service = (begin_cycle s.service).1; at = s.at })
  persist :
      (i : ℕ) (result : DetectionCycleResult) (ready : Bool) (store : Cooldown.Store)
      → s.at i ≡ cycling
      → Step s (record {
        service = persist_result result ready (record (s.service) { cooldown_store = store });
        at = move s.at i persisted;
      })
  finish :
      (i : ℕ)
      → s.at i ≡ persisted
      → Step s (record { service = finish_cycle s.service; at = move s.at i outside })

abbrev pub start : Cooldown.Store → System
start store = record { service = new_service store; at = λ i. outside }

pub data Reach (store : Cooldown.Store) : System → Type 0 where
  here : Reach store (start store)
  next : {s t : System} → Reach store s → Step s t → Reach store t

-- The flag says whether a caller is inside, and at most one is.
record IsExclusive (s : System) : Type 0 where
  flagged : (i : ℕ) → inside (s.at i) ≡ true → s.service.running ≡ true
  unique : (i j : ℕ) → inside (s.at i) ≡ true → inside (s.at j) ≡ true → i ≡ j
  held : s.service.running ≡ true → (i : ℕ) × (inside (s.at i) ≡ true)

Step-IsExclusive : {s t : System} → Step s t → IsExclusive s → IsExclusive t
unfolding begin_cycle persist_result finish_cycle
Step-IsExclusive (begin i at h) inv = record {
  flagged = λ j p. ground arith;
  unique = λ j k p q. ground (arith, inv.flagged j, inv.flagged k);
  held = λ p. (i, ground arith);
}
Step-IsExclusive (refuse i at h) inv = record {
  flagged = λ j p. ground (arith, inv.flagged j);
  unique = λ j k p q. inv.unique j k p q;
  held = λ p. inv.held (ground arith);
}
Step-IsExclusive (persist i result ready store at) inv = record {
  flagged = λ j p. ground (arith, inv.flagged j, inv.flagged i);
  unique = λ j k p q. ground (arith, inv.unique j k, inv.unique i k, inv.unique j i);
  held = λ p. (i, ground arith);
}
Step-IsExclusive (finish i at) inv = record {
  flagged = λ j p. ground (arith, inv.unique i j);
  unique = λ j k p q. ground (arith, inv.unique j k, inv.unique i k, inv.unique j i);
  held = λ p. cc;
}

start-IsExclusive : (store : Cooldown.Store) → IsExclusive (start store)
start-IsExclusive store = record { flagged = λ i p. cc; unique = λ i j p q. cc; held = λ p. cc }

Reach-IsExclusive : {store : Cooldown.Store} {s : System} → Reach store s → IsExclusive s
Reach-IsExclusive {store} here = start-IsExclusive store
Reach-IsExclusive (next r st) = Step-IsExclusive st (Reach-IsExclusive r)

-- However the callers interleave, at most one of them is between beginCycle and finishCycle.
pub Reach-unique :
    {store : Cooldown.Store} {s : System} (i j : ℕ)
    → Reach store s
    → inside (s.at i) ≡ true
    → inside (s.at j) ≡ true
    → i ≡ j
Reach-unique i j r p q = (Reach-IsExclusive r).unique i j p q

-- A caller is refused only while another one is inside: with none inside, beginCycle succeeds.
pub Reach-begins :
    {store : Cooldown.Store} {s : System}
    → Reach store s
    → ((i : ℕ) → inside (s.at i) ≡ false)
    → (begin_cycle s.service).0 ≡ true
unfolding begin_cycle
Reach-begins {s} r none_inside = elim (Bool-cases s.service.running) [
  | inl busy ↦ let (i, held) = (Reach-IsExclusive r).held busy in cc (none_inside i)
  | inr free ↦ rw free
]
