-- ===== src/Drift/Clients/Retry/Laws.antt =====
-- How often a client calls, and which reply it returns.
use infrastructure_managemen.Common.{
  ℕ, zero, suc, ◌+◌, ◌≤◌, String, ◌≡◌, refl, subst, if_both, Bool, true, false, ◌&&◌, not, Option,
  none, some, arith, Result, ok, err, eqb,
}
use infrastructure_managemen.Common.Int.{ℤ, pos, negsuc, pos_part, leb_ℤ}
use infrastructure_managemen.Common.Json.{Mismatch}
use infrastructure_managemen.Common.Clock.{Duration}
use infrastructure_managemen.Drift.Config.{RetryConfig}
use infrastructure_managemen.Drift.Clients.Retry.{
  Reply, Link, read_reply, response, CallError, ClientError, should_retry, sleep_with_context,
  after_sleep, after_call, attempts, with_retries,
}

-- The same link, with a counter of its calls beside the world.
abbrev pub counting : {W A : Type 0} → Link W A → Link (ℕ × W) A
counting link = record {
  call = λ s. let (reply, w) = link.call s.1 in (reply, (s.0 + 1, w));
  wait = λ d s. let (e, w) = link.wait d s.1 in (e, (s.0, w));
}

eqb_same : (n : ℕ) → eqb n n ≡ true
eqb_same n = ground arith

pub positive : (m : ℤ) → leb_ℤ m (pos 0) ≡ false → (n : ℕ) × (pos_part m ≡ suc n)
positive (pos zero) h = absurd (ground (arith, h))
positive (pos (suc n)) h = (n, refl)
positive (negsuc n) h = absurd (ground (arith, h))

module _ {W A : Type 0} (link : Link W A) where
  abbrev Bounds : ℕ → ℕ → Result ClientError A × (ℕ × W) → Type 0
  Bounds low high r = (low ≤ r.1.0) × (r.1.0 ≤ high)

  sleep-calls :
      (delay : Duration) (s : ℕ × W) → (sleep_with_context (counting link) delay s).1.0 ≡ s.0
  unfolding sleep_with_context
  sleep-calls delay s =
      if_both (λ (r : Option String × (ℕ × W)). r.1.0 ≡ s.0) (leb_ℤ delay (pos 0)) _ _ refl refl

  after_sleep-calls :
      (again : ℕ × W → Result ClientError A × (ℕ × W)) (n left : ℕ) (p : Option String × (ℕ × W))
      → ((t : ℕ × W) → Bounds t.0 (t.0 + left) (again t))
      → p.1.0 ≡ n
      → Bounds n (n + left) (after_sleep (counting link) again p)
  after_sleep-calls again n left (none, w) bound same =
      subst (λ (k : ℕ). Bounds k (k + left) (again w)) same (bound w)
  after_sleep-calls again n left (some e, w) bound same = (omega (arith, same), omega (arith, same))

  after_call-calls :
      (retry : Bool) (backoff : Duration)
      (again : Option CallError → ℕ × W → Result ClientError A × (ℕ × W)) (r : Result CallError A)
      (left : ℕ) (s : ℕ × W)
      → ((e : Option CallError) (t : ℕ × W) → Bounds t.0 (t.0 + left) (again e t))
      → Bounds s.0 (s.0 + left) (after_call (counting link) retry backoff again r s)
  unfolding after_call
  after_call-calls retry backoff again (ok a) left s bound = (omega arith, omega arith)
  after_call-calls false backoff again (err e) left s bound = (omega arith, omega arith)
  after_call-calls true backoff again (err e) left s bound =
      after_sleep-calls (again (some e)) s.0 left (sleep_with_context (counting link) backoff s)
        (bound (some e)) (sleep-calls backoff s)

  attempts-calls :
      (left : ℕ) (backoff : Duration) (last : Option CallError) (s : ℕ × W)
      → Bounds s.0 (s.0 + left) (attempts (counting link) left backoff last s)
  unfolding attempts
  attempts-calls zero backoff last s = (omega arith, omega arith)
  attempts-calls (suc left) backoff last (n, w) =
      let (lower, upper) =
        after_call-calls (should_retry (link.call w).0.status_code && not (eqb left 0)) backoff
          (attempts (counting link) left backoff) (link.call w).0.outcome left
          (n + 1, (link.call w).1) (attempts-calls left backoff) in
      (omega arith, omega arith)

  first_call :
      (left : ℕ) (backoff : Duration) (last : Option CallError) (s : ℕ × W)
      → s.0 + 1 ≤ (attempts (counting link) (suc left) backoff last s).1.0
  unfolding attempts
  first_call left backoff last (n, w) =
      (after_call-calls (should_retry (link.call w).0.status_code && not (eqb left 0)) backoff
        (attempts (counting link) left backoff) (link.call w).0.outcome left
        (n + 1, (link.call w).1) (attempts-calls left backoff)).0

-- Whatever the replies and the end of the context, a client whose configuration allows at least one attempt
-- makes at least one call, and at most as many as the configuration allows.
pub with_retries-calls :
    {W A : Type 0} (link : Link W A) (retry : RetryConfig) (w : W)
    → leb_ℤ retry.max_attempts (pos 0) ≡ false
    → (1 ≤ (with_retries (counting link) retry (0, w)).1.0)
      × ((with_retries (counting link) retry (0, w)).1.0 ≤ pos_part retry.max_attempts)
unfolding with_retries
with_retries-calls link retry w h =
    let (n, e) = positive retry.max_attempts h in
    let upper = (attempts-calls link (suc n) retry.backoff none (0, w)).1 in
    rw e (first_call link n retry.backoff none (0, w), omega (arith, upper))

-- A first call with a value is the only one.
pub with_retries-first_value :
    {W A : Type 0} (link : Link W A) (retry : RetryConfig) (w w' : W) (r : Reply A) (a : A)
    → leb_ℤ retry.max_attempts (pos 0) ≡ false
    → link.call w ≡ (r, w')
    → r.outcome ≡ ok a
    → with_retries link retry w ≡ (ok a, w')
unfolding with_retries attempts after_call
with_retries-first_value link retry w w' r a h called value =
    let (n, e) = positive retry.max_attempts h in rw (e, called, value) refl

-- A response with the expected status whose body decodes is a reply with that value.
pub read_reply-response :
    {A : Type 0} (expected : ℕ) (decode : String → Result Mismatch A) (body : String) (a : A)
    → decode body ≡ ok a
    → (read_reply expected decode (response expected body)).outcome ≡ ok a
unfolding read_reply
read_reply-response expected decode body a h = rw (eqb_same expected, h) refl
