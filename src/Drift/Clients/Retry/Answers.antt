-- ===== src/Drift/Clients/Retry/Answers.antt =====
-- Which reply a client returns, for replies that come one after the other and a context that does not end.
use infrastructure_managemen.Common.{
  ℕ, zero, suc, ◌+◌, ◌≤◌, ◌<◌, String, ◌≡◌, refl, subst, ◌⊎◌, inl, inr, Bool, true, false, ◌&&◌,
  not, Option, none, some, arith, if_both, Result, ok, err, eqb, leb, Bool-cases,
}
use infrastructure_managemen.Common.Int.{pos, pos_part, leb_ℤ}
use infrastructure_managemen.Common.Clock.{Duration}
use infrastructure_managemen.Drift.Config.{RetryConfig}
use infrastructure_managemen.Drift.Clients.Retry.Laws.{positive}
use infrastructure_managemen.Drift.Clients.Retry.{
  Reply, Link, CallError, ClientError, failed, should_retry, sleep_with_context, after_call,
  attempts, with_retries,
}

-- The number of the call is the world.
abbrev pub stream : {A : Type 0} → (ℕ → Reply A) → Link ℕ A
stream replies = record { call = λ i. (replies i, i + 1); wait = λ d i. (none, i) }

abbrev pub returned : {A : Type 0} → Result CallError A → Result ClientError A
returned (ok a) = ok a
returned (err e) = err (failed (some e))

-- A status that stands for an answer which another call will not change.
abbrev pub is_settled : ℕ → Bool
is_settled status_code = leb 1 status_code && leb status_code 499

should_retry_lem : (status_code : ℕ) → should_retry status_code ≡ not (is_settled status_code)
unfolding should_retry
should_retry_lem status_code = ground arith

-- An error that a later call may mend.
abbrev pub is_transient : {A : Type 0} → Reply A → Bool
is_transient reply = elim (reply.outcome) [
  | ok a ↦ false
  | err e ↦ not (is_settled reply.status_code)
]

-- The loop from the call `i` on, with so many attempts, ends with the first reply that is not transient, or with
-- the last one.
pub record IsAnswered {A : Type 0} (replies : ℕ → Reply A) (i left : ℕ)
    (r : Result ClientError A × ℕ) : Type 0 where
  pub last : ℕ
  pub from : i ≤ last
  pub below : last < i + left
  pub calls : r.1 ≡ last + 1
  pub result : r.0 ≡ returned (replies last).outcome
  pub earlier : (j : ℕ) → i ≤ j → j < last → is_transient (replies j) ≡ true
  pub final : (is_transient (replies last) ≡ false) ⊎ (last + 1 ≡ i + left)

module _ {A : Type 0} (replies : ℕ → Reply A) (backoff : Duration) where
  sleep_eq : (i : ℕ) → sleep_with_context (stream replies) backoff i ≡ (none, i)
  unfolding sleep_with_context
  sleep_eq i =
      if_both (λ (r : Option String × ℕ). r ≡ (none, i)) (leb_ℤ backoff (pos 0)) _ _ refl refl

  -- The answer of the call `i` itself.
  here :
      (i left : ℕ)
      → (is_transient (replies i) ≡ false) ⊎ (left ≡ 0)
      → IsAnswered replies i (suc left) (returned (replies i).outcome, i + 1)
  here i left final = record {
    last = i;
    from = omega arith;
    below = omega arith;
    calls = refl;
    result = refl;
    earlier = λ j p q. absurd (omega arith);
    final = elim final [ inl f ↦ inl f | inr z ↦ inr (omega (arith, z)) ];
  }

  from_the_next :
      (i last : ℕ)
      → is_transient (replies i) ≡ true
      → ((j : ℕ) → i + 1 ≤ j → j < last → is_transient (replies j) ≡ true)
      → (j : ℕ) → i ≤ j
      → j < last
      → is_transient (replies j) ≡ true
  from_the_next i last transient rest j p q = elim (Bool-cases (eqb j i)) [
    | inl e ↦ subst (λ k. is_transient (replies k) ≡ true) (ground (arith, e)) transient
    | inr n ↦ rest j (ground (arith, n, p)) q
  ]

  -- An answer of a later call.
  later :
      (i left : ℕ) (r : Result ClientError A × ℕ)
      → is_transient (replies i) ≡ true
      → IsAnswered replies (i + 1) left r
      → IsAnswered replies i (suc left) r
  later i left r transient a = record {
    last = a.last;
    from = let p = a.from in omega arith;
    below = let p = a.below in omega arith;
    calls = a.calls;
    result = a.result;
    earlier = from_the_next i a.last transient a.earlier;
    final = elim (a.final) [ inl f ↦ inl f | inr e ↦ inr (omega (arith, e)) ];
  }

  -- The rest of the loop is answered, whatever the last error.
  abbrev IsRestAnswered : ℕ → ℕ → Type 0
  IsRestAnswered i left =
      (e : Option CallError)
      → eqb left 0 ≡ false
      → IsAnswered replies i left (attempts (stream replies) left backoff e i)

  step :
      (i left : ℕ) (retry : Bool) (r : Result CallError A)
      → (replies i).outcome ≡ r
      → should_retry (replies i).status_code && not (eqb left 0) ≡ retry
      → IsRestAnswered (i + 1) left
      → IsAnswered replies i (suc left) (
          after_call
            (stream replies)
            retry
            backoff
            (attempts (stream replies) left backoff)
            r
            (i + 1))
  unfolding after_call
  step i left retry (ok a) same test rest =
      subst (λ r. IsAnswered replies i (suc left) (returned r, i + 1)) same
        (here i left (inl (rw same refl)))
  step i left false (err e) same test rest =
      subst (λ r. IsAnswered replies i (suc left) (returned r, i + 1)) same
        (here i left (elim (Bool-cases (eqb left 0)) [
          | inl z ↦ inr (ground (arith, z))
          | inr n ↦
              inl (rw same (ground (arith, test, n, should_retry_lem (replies i).status_code)))
        ]))
  step i left true (err e) same test rest = rw (sleep_eq (i + 1)) (
      later i left _ (rw same (ground (arith, test, should_retry_lem (replies i).status_code)))
        (rest (some e) (ground (arith, test))))

  attempts-IsAnswered :
      (left i : ℕ) (last : Option CallError)
      → IsAnswered replies i (suc left) (attempts (stream replies) (suc left) backoff last i)
  unfolding attempts
  attempts-IsAnswered zero i last =
      step i zero _ (replies i).outcome refl refl (λ e h. absurd (ground (arith, h)))
  attempts-IsAnswered (suc left) i last =
      step i (suc left) _ (replies i).outcome refl refl (λ e h. attempts-IsAnswered left (i + 1) e)

-- Where the context does not end and the configuration allows at least one attempt, a client whose replies come
-- one after the other stops after the first reply that is a value, or an error no later call can mend (a status
-- from 1 to 499), or else after the last call allowed. It returns that reply's value or error, and every reply
-- before it was an error that a later call may mend.
pub with_retries-IsAnswered :
    {A : Type 0} (replies : ℕ → Reply A) (retry : RetryConfig)
    → leb_ℤ retry.max_attempts (pos 0) ≡ false
    → IsAnswered replies 0 (pos_part retry.max_attempts) (with_retries (stream replies) retry 0)
unfolding with_retries
with_retries-IsAnswered replies retry h =
    let (n, e) = positive retry.max_attempts h in
    rw e (attempts-IsAnswered replies retry.backoff n 0 none)
