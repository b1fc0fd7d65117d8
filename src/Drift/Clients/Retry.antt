-- ===== src/Drift/Clients/Retry.antt =====
-- What the three clients share: one call over HTTP, and the loop that repeats it.
pub mod Laws
pub mod Answers
use infrastructure_managemen.Common.{
  ℕ, zero, suc, String, Bool, true, false, ◌&&◌, not, Option, none, some, ◌==◌, if◌then◌else◌,
  Result, ok, err, leb, eqb,
}
use infrastructure_managemen.Common.Int.{pos, pos_part, leb_ℤ}
use infrastructure_managemen.Common.Text.{trim_space}
use infrastructure_managemen.Common.Json.{Json, Mismatch}
use infrastructure_managemen.Common.Clock.{Duration}
use infrastructure_managemen.Drift.Config.{RetryConfig}

-- What becomes of a request: it is not built or gets no response, its body cannot be read, or there is a
-- response with a status and a body.
pub data HttpReply : Type 0 where
  no_response : String → HttpReply
  no_body : ℕ → String → HttpReply
  response : ℕ → String → HttpReply

-- The network and the context: a GET and a POST with a body, and the wait for a timer or the end of the
-- context, which gives the context's error.
pub record Http (W : Type 0) : Type 0 where
  pub get : String → W → HttpReply × W
  pub post : String → String → W → HttpReply × W
  pub wait : Duration → W → Option String × W

-- The text of a document: json.Marshal and json.Unmarshal.
pub record Documents : Type 0 where
  pub marshal : Json → Result Mismatch String
  pub unmarshal : String → Result Mismatch Json

-- The error of one call.
pub data CallError : Type 0 where
  not_sent not_read : String → CallError
  unexpected_status : ℕ → String → CallError
  not_decoded : CallError

-- The value or the error of one call, and its status code.
pub record Reply (A : Type 0) : Type 0 where
  pub outcome : Result CallError A
  pub status_code : ℕ

-- The error of a client: the context's, or the last call's, which is nil where no call was made.
pub data ClientError : Type 0 where
  not_marshalled : ClientError
  cancelled : String → ClientError
  failed : Option CallError → ClientError

module _ {A : Type 0} (expected : ℕ) (decode : String → Result Mismatch A) where
  abbrev pub decoded : Result Mismatch A → Result CallError A
  decoded (ok a) = ok a
  decoded (err e) = err not_decoded

  -- fetchOnce and sendOnce, after the request
  unfoldable pub read_reply : HttpReply → Reply A
  read_reply (no_response e) = record { outcome = err (not_sent e); status_code = 0 }
  read_reply (no_body status e) = record { outcome = err (not_read e); status_code = status }
  read_reply (response status body) = record {
    outcome =
        if eqb status expected
        then decoded (decode body)
        else err (unexpected_status status (trim_space body));
    status_code = status;
  }

unfoldable pub should_retry : ℕ → Bool
should_retry status_code = if eqb status_code 0 then true else leb 500 status_code

-- One call, and the waiting for a timer or the end of the context, which gives the context's error.
pub record Link (W A : Type 0) : Type 0 where
  pub call : W → Reply A × W
  pub wait : Duration → W → Option String × W

module _ {W A : Type 0} (link : Link W A) where
  unfoldable pub sleep_with_context : Duration → W → Option String × W
  sleep_with_context delay w = if leb_ℤ delay (pos 0) then (none, w) else link.wait delay w

  abbrev pub after_sleep :
      (W → Result ClientError A × W) → Option String × W → Result ClientError A × W
  after_sleep again (none, w) = again w
  after_sleep again (some e, w) = (err (cancelled e), w)

  -- The Boolean is whether the loop goes on after an error; `again` is the rest of it.
  unfoldable pub after_call :
      Bool
      → Duration
      → (Option CallError → W → Result ClientError A × W)
      → Result CallError A
      → W
      → Result ClientError A × W
  after_call retry backoff again (ok a) w = (ok a, w)
  after_call false backoff again (err e) w = (err (failed (some e)), w)
  after_call true backoff again (err e) w =
      after_sleep (again (some e)) (sleep_with_context backoff w)

  -- The loop with so many attempts left, and the last error.
  unfoldable pub attempts : ℕ → Duration → Option CallError → W → Result ClientError A × W
  attempts zero backoff last w = (err (failed last), w)
  attempts (suc left) backoff last w =
      let (reply, w') = link.call w in
      after_call (should_retry reply.status_code && not (eqb left 0)) backoff
        (attempts left backoff) reply.outcome w'

  -- The loop from the first attempt on.
  unfoldable pub with_retries : RetryConfig → W → Result ClientError A × W
  with_retries retry w = attempts (pos_part retry.max_attempts) retry.backoff none w
