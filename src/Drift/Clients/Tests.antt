-- ===== src/Drift/Clients/Tests.antt =====
-- Replies with a server's error, then a value, and with a client's error.
use infrastructure_managemen.Common.{ℕ, ◌≤◌, String, ◌≡◌, refl, if◌then◌else◌, some, ok, err, eqb}
use infrastructure_managemen.Common.Int.{pos, pos_part}
use infrastructure_managemen.Drift.Config.{RetryConfig}
use infrastructure_managemen.Drift.Clients.Retry.{
  Reply, unexpected_status, failed, with_retries, attempts, after_call, should_retry,
  sleep_with_context,
}
use infrastructure_managemen.Drift.Clients.Retry.Laws.{counting, with_retries-calls}
use infrastructure_managemen.Drift.Clients.Retry.Answers.{
  stream, IsAnswered, with_retries-IsAnswered,
}

abbrev retry : RetryConfig
retry = record { max_attempts = pos 3; backoff = pos 10 }

abbrev failure : ℕ → Reply String
failure status = record { outcome = err (unexpected_status status ""); status_code = status }

abbrev replies : ℕ → Reply String
replies i = if eqb i 0 then failure 503 else record { outcome = ok "state"; status_code = 200 }

with_retries-calls_example :
    (1 ≤ (with_retries (counting (stream replies)) retry (0, 0)).1.0)
    × ((with_retries (counting (stream replies)) retry (0, 0)).1.0 ≤ pos_part retry.max_attempts)
with_retries-calls_example = with_retries-calls (stream replies) retry 0 refl

with_retries-IsAnswered_example : IsAnswered replies 0 3 (with_retries (stream replies) retry 0)
with_retries-IsAnswered_example = with_retries-IsAnswered replies retry refl

second_try : with_retries (stream replies) retry 0 ≡ (ok "state", 2)
unfolding with_retries attempts after_call should_retry sleep_with_context
second_try = refl

no_second_try :
    with_retries (stream (λ i. failure 404)) retry 0
    ≡ (err (failed (some (unexpected_status 404 ""))), 1)
unfolding with_retries attempts after_call should_retry
no_second_try = refl
