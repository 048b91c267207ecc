-- ===== src/Graph/ReliableTransport.antt =====
-- packages/graph/src/reliableTransport.ts, `createReliableTransport`: the attempts of one request.
-- All that happens outside the code in one attempt (what the inner transport answers, the limiter,
-- the clock, callbacks, sleeps, and where the caller's signal is seen aborted) is a `Round`.
pub mod Attempts
pub mod Resent
pub mod Success
mod Tests
use wats.Base.{
  ℕ, zero, suc, ◌≡◌, refl, ◌⊎◌, inl, inr, Bool, true, false, not, ◌||◌, Option, none, some, List,
  ltb, if◌then◌else◌,
}
use wats.Base.Result.{Result, ok, err, ◌>>=◌, ◌>>◌}
use wats.Graph.RetryAfter.{Fraction}
use wats.Graph.RetryPolicy.{
  Request, Response, Failure, Policy, response_context, failure_context, should_retry,
  bounded_delay_ms,
}

-- What happens before the next attempt: the abort check, the clock and the random number, and the
-- failures of `onRetry` and of the sleep, which an abort ends too.
pub record Pause : Type 0 where
  pub aborted : Bool
  pub now : ℕ
  pub random : Fraction
  pub on_retry : Option Failure
  pub sleep : Option Failure

pub data Answer : Type 0 where
  responded : Response → Answer
  failed : Failure → Answer

pub record Round : Type 0 where
  pub aborted_start : Bool
  pub limiter : Option Failure
  pub aborted_admitted : Bool
  pub answer : Answer
  pub after_response : Pause
  pub aborted_caught : Bool
  pub after_error : Pause

-- How an attempt ends: with a response or an error for the caller, or after a delay with the next.
pub data Verdict : Type 0 where
  done : Response → Verdict
  threw : Failure → Verdict
  again : Fraction → Verdict

pub Verdict-cases :
    (v : Verdict)
    → ((x : Response) × (v ≡ done x))
      ⊎ ((f : Failure) × (v ≡ threw f))
      ⊎ ((d : Fraction) × (v ≡ again d))
Verdict-cases (done x) = inl (x, refl)
Verdict-cases (threw f) = inr (inl (f, refl))
Verdict-cases (again d) = inr (inr (d, refl))

pub record Settled : Type 0 where
  pub outcome : Result Failure Response
  pub attempts : ℕ

-- `throwIfAborted`
abbrev pub throw_if : Bool → Failure → Result Failure (Unit {0})
throw_if true f = err f
throw_if false f = ok tt

-- An awaited promise that may reject.
abbrev pub await : Option Failure → Result Failure (Unit {0})
await none = ok tt
await (some f) = err f

-- `abort_reason` is what an aborted signal throws: its reason if that is an `Error`, or else a
-- network error.
module _ (date_parse : List ℕ → Option ℕ) (abort_reason : Failure) (p : Policy)
    (req : Request) where
  pub pause : ℕ → Option Response → Pause → Result Failure Fraction
  pause attempt response x = do
    throw_if x.aborted abort_reason
    delay ← bounded_delay_ms date_parse p attempt response x.now x.random
    await x.on_retry
    await x.sleep
    ok delay

  -- The `catch` clause from the answer of `retryOn` on. What it throws itself leaves the request.
  pub error_asked : ℕ → Round → Failure → Result Failure Bool → Verdict
  error_asked attempt r f (err e) = threw e
  error_asked attempt r f (ok retry) =
      if not retry || ltb p.retries attempt
      then threw f
      else elim (pause attempt none r.after_error) [ ok delay ↦ again delay | err e ↦ threw e ]

  -- The `catch` clause.
  pub on_error : ℕ → Round → Failure → Verdict
  on_error attempt r f =
      if r.aborted_caught
      then threw f
      else error_asked attempt r f (should_retry p (failure_context attempt req f))

  -- The `try` clause from the answer of `retryOn` on. What it throws goes to the `catch` clause.
  pub response_asked : ℕ → Round → Response → Result Failure Bool → Verdict
  response_asked attempt r x (err e) = on_error attempt r e
  response_asked attempt r x (ok retry) =
      if not retry || ltb p.retries attempt
      then done x
      else elim (pause attempt (some x) r.after_response) [
        | ok delay ↦ again delay
        | err e ↦ on_error attempt r e
      ]

  -- The `try` clause once a response is there.
  pub on_response : ℕ → Round → Response → Verdict
  on_response attempt r x =
      response_asked attempt r x (should_retry p (response_context attempt req x))

  pub dispatch : ℕ → Round → Answer → Verdict
  dispatch attempt r (responded x) = on_response attempt r x
  dispatch attempt r (failed f) = on_error attempt r f

  -- The checks before an attempt.
  pub admission : Round → Result Failure (Unit {0})
  admission r = do
    throw_if r.aborted_start abort_reason
    await (if p.rate_limited then r.limiter else none)
    throw_if r.aborted_admitted abort_reason

  -- The loop, with `attempt` attempts behind it; `none` if the fuel runs out.
  pub attempts_from : ℕ → (ℕ → Round) → ℕ → Option Settled
  attempts_from zero rounds attempt = none
  attempts_from (suc fuel) rounds attempt = elim (admission (rounds attempt)) [
    | err f ↦ some (record { outcome = err f; attempts = attempt })
    | ok _ ↦ elim (dispatch (suc attempt) (rounds attempt) (rounds attempt).answer) [
      | done x ↦ some (record { outcome = ok x; attempts = suc attempt })
      | threw f ↦ some (record { outcome = err f; attempts = suc attempt })
      | again delay ↦ attempts_from fuel rounds (suc attempt)
    ]
  ]

  -- `request`: one attempt and `retries` more are all that there can be.
  pub request : (ℕ → Round) → Option Settled
  request rounds = attempts_from (suc p.retries) rounds 0
