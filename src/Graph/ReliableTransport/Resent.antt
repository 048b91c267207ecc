-- ===== src/Graph/ReliableTransport/Resent.antt =====
-- Requests that are not sent twice.
use wats.Base.{ℕ, ◌≡◌, refl, ◌==◌, false, Option, none, List, arith}
use wats.Graph.RetryAfter.{Fraction}
use wats.Graph.RetryPolicy.{Policy, Request, Failure}
use wats.Graph.RetryPolicy.Posts.{IsUntrusted, untrusted_failure, untrusted_response}
use wats.Graph.ReliableTransport.{
  response_asked, error_asked, Round, Answer, responded, failed, again, on_error, on_response,
  dispatch, request,
}
use wats.Graph.ReliableTransport.Attempts.{Settles, turn_cases}

-- The answer is no 429.
abbrev pub IsUnthrottled : Answer → Type 0
IsUnthrottled (responded x) = (x.status == 429) ≡ false
IsUnthrottled (failed f) = Unit

module _ (date_parse : List ℕ → Option ℕ) (abort_reason : Failure) (p : Policy) (req : Request)
    (default : p.retry_on ≡ none) (untrusted : IsUntrusted p.retry_posts req) where
  dispatch-not-again :
      (attempt : ℕ) (r : Round) (a : Answer) (d : Fraction)
      → IsUnthrottled a
      → ¬ (dispatch date_parse abort_reason p req attempt r a ≡ again d)
  unfolding dispatch on_response on_error response_asked error_asked
  dispatch-not-again attempt r (responded x) d h e =
      ground (arith, untrusted_response p default attempt req x untrusted h)
  dispatch-not-again attempt r (failed f) d h e =
      ground (arith, untrusted_failure p default attempt req f untrusted)

  -- Under the default rule, if no answer is a 429, a request that the mode does not trust is sent at
  -- most once: a PUT or PATCH, a POST under "never", and a POST with no Idempotency-Key header under
  -- "network-only". The call settles.
  pub request-once :
      (rounds : ℕ → Round)
      → ((k : ℕ) → IsUnthrottled (rounds k).answer)
      → Settles 1 (request date_parse abort_reason p req rounds)
  unfolding request
  request-once rounds h =
      turn_cases date_parse abort_reason p req rounds p.retries 0 (Settles 1)
        (λ f. (_, refl, omega arith)) (λ o. (_, refl, omega arith))
        λ d v. absurd (dispatch-not-again 1 (rounds 0) (rounds 0).answer d (h 0) v)
