-- ===== src/Graph/RetryPolicy/Posts.antt =====
-- What the default rule sends again.
use wats.Base.{
  refl, ℕ, ◌≡◌, ◌⊎◌, ◌↔◌, ◌==◌, ◌||◌, not, Bool, true, false, Option, none, some, arith,
}
use wats.Base.Result.{ok}
use wats.Graph.RetryPolicy.{
  Method, get, post, put, patch, delete, Response, Failure, network, RetryPostMode, never,
  network_only, always, retry_rule, is_5xx, Policy, Request, default_retry_on, should_retry,
  is_retryable_method, response_context, failure_context, has_status, has_idempotency_key,
}

-- The response is a 429.
abbrev pub IsThrottled : Option Response → Type 0
IsThrottled none = ⊥
IsThrottled (some r) = r.status ≡ 429

-- The response is a 5xx, and no network error came in its place.
abbrev pub IsServerError : Option Response → Option Failure → Type 0
IsServerError (some r) none = is_5xx r.status ≡ true
IsServerError _ _ = ⊥

-- No response came, but a network error.
abbrev pub IsNetworkFailure : Option Response → Option Failure → Type 0
IsNetworkFailure none (some (network n)) = Unit
IsNetworkFailure _ _ = ⊥

-- What a mode lets through for a method, beside a 429.
abbrev pub IsAllowed : RetryPostMode → Bool → Method → Option Response → Option Failure → Type 0
IsAllowed mode has_key get x e = IsNetworkFailure x e ⊎ IsServerError x e
IsAllowed mode has_key delete x e = IsNetworkFailure x e ⊎ IsServerError x e
IsAllowed never has_key post x e = ⊥
IsAllowed network_only has_key post x e = IsNetworkFailure x e × (has_key ≡ true)
IsAllowed always has_key post x e = IsNetworkFailure x e × (has_key ≡ true) ⊎ IsServerError x e
IsAllowed mode has_key put x e = ⊥
IsAllowed mode has_key patch x e = ⊥

-- Requests that a mode sends again for nothing but a 429: every PUT and PATCH, a POST under
-- "never", and a POST with no Idempotency-Key under "network-only".
abbrev pub is_untrusted : RetryPostMode → Bool → Method → Bool
is_untrusted mode has_key put = true
is_untrusted mode has_key patch = true
is_untrusted never has_key post = true
is_untrusted network_only has_key post = not has_key
is_untrusted mode has_key m = false

abbrev pub IsUntrusted : RetryPostMode → Request → Type 0
IsUntrusted mode req = is_untrusted mode (has_idempotency_key req) req.method ≡ true

retry_rule_responded :
    (mode : RetryPostMode) (has_key : Bool) (m : Method) (r : Response)
    → (retry_rule mode has_key m (some r) none ≡ true)
      ↔ (IsThrottled (some r) ⊎ IsAllowed mode has_key m (some r) none)
unfolding retry_rule
retry_rule_responded never has_key get r = (ground arith, ground arith)
retry_rule_responded mode has_key m r = (ground arith, ground arith)

retry_rule_failed :
    (mode : RetryPostMode) (has_key : Bool) (m : Method) (f : Failure)
    → (retry_rule mode has_key m none (some f) ≡ true)
      ↔ (IsThrottled none ⊎ IsAllowed mode has_key m none (some f))
unfolding retry_rule
retry_rule_failed never has_key get (network n) = (ground arith, ground arith)
retry_rule_failed mode has_key m f = (ground arith, ground arith)

-- The default rule retries an attempt that got a response exactly for a 429, or a 5xx where the mode
-- allows it for the method; and one that failed exactly for a network error where the mode allows
-- it for the method: GET and DELETE always, PUT and PATCH never, a POST never under "never", and
-- under the other modes only with an Idempotency-Key header.
pub default_retry_on_iff :
    (mode : RetryPostMode) (attempt : ℕ) (req : Request) (r : Response) (f : Failure)
    → ((default_retry_on mode (response_context attempt req r) ≡ true) ↔ (
        IsThrottled (some r) ⊎ IsAllowed mode (has_idempotency_key req) req.method (some r) none))
      × ((default_retry_on mode (failure_context attempt req f) ≡ true)
          ↔ (IsThrottled none ⊎ IsAllowed mode (has_idempotency_key req) req.method none (some f)))
unfolding default_retry_on
default_retry_on_iff mode attempt req r f = (
  retry_rule_responded mode (has_idempotency_key req) req.method r,
  retry_rule_failed mode (has_idempotency_key req) req.method f,
)

-- The answer of an attempt under a policy with no `retryOn` of its own.
module _ (p : Policy) (default : p.retry_on ≡ none) (attempt : ℕ) (req : Request) where
  untrusted_rule :
      (x : Option Response) (e : Option Failure)
      → IsUntrusted p.retry_posts req
      → has_status (λ s. s == 429) x ≡ false
      → should_retry p (record { attempt = attempt; request = req; response = x; error = e })
        ≡ ok false
  unfolding should_retry default_retry_on retry_rule
  untrusted_rule x e h k = rw (default, should_retry) (ground arith)

  pub untrusted_failure :
      (f : Failure)
      → IsUntrusted p.retry_posts req
      → should_retry p (failure_context attempt req f) ≡ ok false
  untrusted_failure f h = untrusted_rule none (some f) h refl

  pub untrusted_response :
      (x : Response)
      → IsUntrusted p.retry_posts req
      → (x.status == 429) ≡ false
      → should_retry p (response_context attempt req x) ≡ ok false
  untrusted_response x h k = untrusted_rule (some x) none h k

  pub transient_failure :
      (n : ℕ)
      → is_retryable_method req.method ≡ true
      → should_retry p (failure_context attempt req (network n)) ≡ ok true
  unfolding should_retry default_retry_on retry_rule
  transient_failure n h = rw (default, should_retry) (ground arith)

  pub transient_response :
      (x : Response)
      → is_retryable_method req.method ≡ true
      → should_retry p (response_context attempt req x) ≡ ok ((x.status == 429) || is_5xx x.status)
  unfolding should_retry default_retry_on retry_rule
  transient_response x h = rw (default, should_retry) (ground arith)
