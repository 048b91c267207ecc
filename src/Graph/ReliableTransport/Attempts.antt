-- ===== src/Graph/ReliableTransport/Attempts.antt =====
-- How many attempts a request makes.
use wats.Base.{Bool, ℕ, zero, suc, ◌+◌, ◌≤◌, ◌<◌, ◌≡◌, refl, Option, some, List, arith, inl, inr}
use wats.Base.Result.{Result, ok, err, Result-cases}
use wats.Graph.RetryAfter.{Fraction}
use wats.Graph.RetryPolicy.{
  Policy, Request, Response, Failure, should_retry, response_context, failure_context,
}
use wats.Graph.ReliableTransport.{
  Round, Answer, responded, failed, done, threw, again, Settled, error_asked, response_asked,
  on_error, on_response, dispatch, admission, Verdict-cases, attempts_from, request,
}

-- What a loop with enough fuel comes to.
abbrev pub Settles : ℕ → Option Settled → Type 0
Settles most o = (s : Settled) × (o ≡ some s) × (s.attempts ≤ most)

module _ (date_parse : List ℕ → Option ℕ) (abort_reason : Failure) (p : Policy)
    (req : Request) where
  error_asked-again :
      (attempt : ℕ) (r : Round) (f : Failure) (asked : Result Failure Bool) (d : Fraction)
      → error_asked date_parse abort_reason p req attempt r f asked ≡ again d
      → attempt ≤ p.retries
  unfolding error_asked
  error_asked-again attempt r f (err e) d h = cc
  error_asked-again attempt r f (ok retry) d h = ground arith

  on_error-again :
      (attempt : ℕ) (r : Round) (f : Failure) (d : Fraction)
      → on_error date_parse abort_reason p req attempt r f ≡ again d
      → attempt ≤ p.retries
  unfolding on_error
  on_error-again attempt r f d h =
      ground
        (arith, error_asked-again attempt r f (should_retry p (failure_context attempt req f)) d)

  response_asked-again :
      (attempt : ℕ) (r : Round) (x : Response) (asked : Result Failure Bool) (d : Fraction)
      → response_asked date_parse abort_reason p req attempt r x asked ≡ again d
      → attempt ≤ p.retries
  unfolding response_asked
  response_asked-again attempt r x (err e) d h = on_error-again attempt r e d h
  response_asked-again attempt r x (ok retry) d h = ground arith

  on_response-again :
      (attempt : ℕ) (r : Round) (x : Response) (d : Fraction)
      → on_response date_parse abort_reason p req attempt r x ≡ again d
      → attempt ≤ p.retries
  unfolding on_response
  on_response-again attempt r x d h =
      response_asked-again attempt r x (should_retry p (response_context attempt req x)) d h

  dispatch-again :
      (attempt : ℕ) (r : Round) (a : Answer) (d : Fraction)
      → dispatch date_parse abort_reason p req attempt r a ≡ again d
      → attempt ≤ p.retries
  unfolding dispatch
  dispatch-again attempt r (responded x) d h = on_response-again attempt r x d h
  dispatch-again attempt r (failed f) d h = on_error-again attempt r f d h

  -- One turn of the loop, in its four cases.
  module _ (rounds : ℕ → Round) (fuel attempt : ℕ) where
    pub turn_rejected :
        {f : Failure}
        → admission date_parse abort_reason p req (rounds attempt) ≡ err f
        → attempts_from date_parse abort_reason p req (suc fuel) rounds attempt
          ≡ some (record { outcome = err f; attempts = attempt })
    unfolding attempts_from
    turn_rejected e = rw (e, attempts_from)

    pub turn_done :
        {x : Response}
        → admission date_parse abort_reason p req (rounds attempt) ≡ ok tt
        → dispatch date_parse abort_reason p req
            (suc attempt)
            (rounds attempt)
            (rounds attempt).answer
          ≡ done x
        → attempts_from date_parse abort_reason p req (suc fuel) rounds attempt
          ≡ some (record { outcome = ok x; attempts = suc attempt })
    unfolding attempts_from
    turn_done e v = rw (e, v, attempts_from)

    pub turn_threw :
        {f : Failure}
        → admission date_parse abort_reason p req (rounds attempt) ≡ ok tt
        → dispatch date_parse abort_reason p req
            (suc attempt)
            (rounds attempt)
            (rounds attempt).answer
          ≡ threw f
        → attempts_from date_parse abort_reason p req (suc fuel) rounds attempt
          ≡ some (record { outcome = err f; attempts = suc attempt })
    unfolding attempts_from
    turn_threw e v = rw (e, v, attempts_from)

    pub turn_again :
        {d : Fraction}
        → admission date_parse abort_reason p req (rounds attempt) ≡ ok tt
        → dispatch date_parse abort_reason p req
            (suc attempt)
            (rounds attempt)
            (rounds attempt).answer
          ≡ again d
        → attempts_from date_parse abort_reason p req (suc fuel) rounds attempt
          ≡ attempts_from date_parse abort_reason p req fuel rounds (suc attempt)
    unfolding attempts_from
    turn_again e v = rw (e, v, attempts_from)

    -- What holds of the result in each of the four cases holds of it.
    pub turn_cases :
        (P : Option Settled → Type 0)
        → ((f : Failure) → P (some (record { outcome = err f; attempts = attempt })))
        → ((o : Result Failure Response)
            → P (some (record { outcome = o; attempts = suc attempt })))
        → ((d : Fraction)
            → dispatch date_parse abort_reason p req
                (suc attempt)
                (rounds attempt)
                (rounds attempt).answer
              ≡ again d
            → P (attempts_from date_parse abort_reason p req fuel rounds (suc attempt)))
        → P (attempts_from date_parse abort_reason p req (suc fuel) rounds attempt)
    turn_cases P rejected settled next =
        elim (Result-cases (admission date_parse abort_reason p req (rounds attempt))) [
          | inr (f, e) ↦ rw (turn_rejected e) (rejected f)
          | inl (_, e) ↦
              elim (Verdict-cases (
                dispatch date_parse abort_reason p req (suc attempt) (rounds attempt)
                  (rounds attempt).answer)) [
                    | inl (x, v) ↦ rw (turn_done e v) (settled (ok x))
                    | inr (inl (f, v)) ↦ rw (turn_threw e v) (settled (err f))
                    | inr (inr (d, v)) ↦ rw (turn_again e v) (next d v)
                  ]
        ]

  attempts_from-Settles :
      (rounds : ℕ → Round) (fuel attempt : ℕ)
      → fuel + attempt ≡ suc p.retries
      → 0 < fuel
      → Settles (suc p.retries) (attempts_from date_parse abort_reason p req fuel rounds attempt)
  attempts_from-Settles rounds zero attempt e h = elim h [ ]
  attempts_from-Settles rounds (suc fuel) attempt e h =
      turn_cases rounds fuel attempt (Settles (suc p.retries)) (λ f. (_, refl, omega arith))
        (λ o. (_, refl, omega arith))
        λ d v.
          attempts_from-Settles rounds fuel (suc attempt) (omega arith) (
            omega
              (arith, dispatch-again (suc attempt) (rounds attempt) (rounds attempt).answer d v))

  -- Whatever the transport answers, whatever the limiter, `retryOn`, `jitter`, `onRetry` and the
  -- sleeps give or throw, and wherever the signal is aborted, a request settles, with a response or an error, after at most
  -- `retries` attempts more than one.
  pub request-Settles :
      (rounds : ℕ → Round) → Settles (suc p.retries) (request date_parse abort_reason p req rounds)
  unfolding request
  request-Settles rounds =
      attempts_from-Settles rounds (suc p.retries) 0 (omega arith) (omega arith)
