-- ===== src/Graph/RetryPolicy.antt =====
-- packages/graph/src/reliableTransport.ts, the policy: its options, the default rule of what is sent
-- again, and the delay before a retry. Times in milliseconds are whole numbers in the options, and
-- fractions where the code computes with seconds or random numbers.
pub mod Delay
pub mod Posts
mod Tests
use Prim.Native.String.{String}
use text.Mathlib.Text.{◌==◌ as str_eq}
use wats.Base.{
  ℕ, ◌+◌, ◌-◌, ◌*◌, ◌/◌, ◌^◌, min, Bool, true, false, not, ◌&&◌, Option, none, some, List, any, ltb,
  leb, ◌==◌, if◌then◌else◌,
}
use wats.Base.Result.{Result, ok, err, ◌>>=◌, ◌>>◌, guard}
use wats.Graph.RetryAfter.{Fraction, parse_retry_after_ms}

pub data Method : Type 0 where
  get post put patch delete : Method

-- The names in `Headers` are lower case.
pub record Request : Type 0 where
  pub method : Method
  pub headers : List String

pub record Response : Type 0 where
  pub status : ℕ
  pub retry_after : Option (List ℕ)

-- An error object: a `GraphNetworkError` or another one, and the policy's own complaints.
pub data Failure : Type 0 where
  network other : ℕ → Failure
  bad_jitter bad_random : Failure

pub data RetryPostMode : Type 0 where
  never network_only always : RetryPostMode

-- `ReliableTransportRetryContext`
pub record RetryContext : Type 0 where
  pub attempt : ℕ
  pub request : Request
  pub response : Option Response
  pub error : Option Failure

-- The contexts that the transport makes: `{ attempt, request, response }` and
-- `{ attempt, request, error }`.
abbrev pub response_context : ℕ → Request → Response → RetryContext
response_context attempt req r = record {
  attempt = attempt;
  request = req;
  response = some r;
  error = none;
}

abbrev pub failure_context : ℕ → Request → Failure → RetryContext
failure_context attempt req f = record {
  attempt = attempt;
  request = req;
  response = none;
  error = some f;
}

pub record Options : Type 0 where
  pub retries : Option ℕ
  pub base_delay_ms : Option ℕ
  pub max_delay_ms : Option ℕ
  pub timeout_ms : Option ℕ
  -- A call may throw; `none` is a result that is no finite number >= 0.
  pub jitter : Option (ℕ → ℕ → Result Failure (Option Fraction))
  -- A call may throw.
  pub retry_on : Option (RetryContext → Result Failure Bool)
  pub retry_posts : Option String
  pub rate_limited : Bool

-- `ResolvedReliableTransportPolicy`
pub record Policy : Type 0 where
  pub retries : ℕ
  pub base_delay_ms : ℕ
  pub max_delay_ms : ℕ
  pub jitter : Option (ℕ → ℕ → Result Failure (Option Fraction))
  pub retry_on : Option (RetryContext → Result Failure Bool)
  pub retry_posts : RetryPostMode
  pub rate_limited : Bool

pub data OptionsError : Type 0 where
  bad_max_delay base_above_max bad_timeout bad_retry_posts : OptionsError

abbrev or_else {ℓ} : {A : Type ℓ} → Option A → A → A
or_else none d = d
or_else (some a) d = a

pub resolve_retry_post_mode : Option String → Result OptionsError RetryPostMode
resolve_retry_post_mode none = ok never
resolve_retry_post_mode (some value) =
    if str_eq value "never"
    then ok never
    else if str_eq value "network-only"
    then ok network_only
    else if str_eq value "always"
    then ok always
    else err bad_retry_posts

pub resolve_policy : Options → Result OptionsError Policy
resolve_policy o = do
  let base = or_else o.base_delay_ms 200
  let most = or_else o.max_delay_ms 30000
  guard (leb 1 most) bad_max_delay
  guard (leb base most) base_above_max
  guard (leb 1 (or_else o.timeout_ms 1)) bad_timeout
  mode ← resolve_retry_post_mode o.retry_posts
  ok (record {
    retries = or_else o.retries 3;
    base_delay_ms = base;
    max_delay_ms = most;
    jitter = o.jitter;
    retry_on = o.retry_on;
    retry_posts = mode;
    rate_limited = o.rate_limited;
  })

abbrev pub is_retryable_method : Method → Bool
is_retryable_method get = true
is_retryable_method delete = true
is_retryable_method _ = false

abbrev pub is_post : Method → Bool
is_post post = true
is_post _ = false

abbrev is_never : RetryPostMode → Bool
is_never never = true
is_never _ = false

abbrev is_always : RetryPostMode → Bool
is_always always = true
is_always _ = false

pub has_idempotency_key : Request → Bool
has_idempotency_key r = any (λ name. str_eq name "idempotency-key") r.headers

abbrev is_network_error : Option Failure → Bool
is_network_error (some (network n)) = true
is_network_error _ = false

abbrev pub has_status : (ℕ → Bool) → Option Response → Bool
has_status p none = false
has_status p (some r) = p r.status

abbrev pub is_5xx : ℕ → Bool
is_5xx status = leb 500 status && ltb status 600

-- The rule of `makeDefaultRetryOn`, over the parts of the context that it reads.
pub retry_rule : RetryPostMode → Bool → Method → Option Response → Option Failure → Bool
retry_rule mode has_key method response error =
    if has_status (λ s. s == 429) response
    then true
    else if is_network_error error
    then (if is_retryable_method method
        then true
        else if is_post method && not (is_never mode)
        then has_key
        else false)
    else if is_retryable_method method
    then has_status is_5xx response
    else if is_post method && is_always mode
    then has_status is_5xx response
    else false

-- `makeDefaultRetryOn`
pub default_retry_on : RetryPostMode → RetryContext → Bool
default_retry_on mode ctx =
    retry_rule mode (has_idempotency_key ctx.request) ctx.request.method ctx.response ctx.error

-- `policy.retryOn ?? makeDefaultRetryOn(policy.retryPosts)`
pub should_retry : Policy → RetryContext → Result Failure Bool
should_retry p = or_else p.retry_on (λ ctx. ok (default_retry_on p.retry_posts ctx))

-- `Math.min(d, most)` for a whole number `most`
pub min_ms : Fraction → ℕ → Fraction
min_ms d most = if leb d.num (most * d.den) then d else record { num = most; den = 1 }

-- `policy.random()` must be a finite number in [0, 1].
pub scale_random : ℕ → Fraction → Result Failure Fraction
scale_random ms random =
    if ltb 0 random.den && leb random.num random.den
    then ok (record { num = ms * random.num / random.den; den = 1 })
    else err bad_random

pub exponential_ms : Policy → ℕ → ℕ
exponential_ms p attempt = min (p.base_delay_ms * 2 ^ (attempt - 1)) p.max_delay_ms

-- A `jitter` result must be a finite number >= 0.
pub custom_delay : Result Failure (Option Fraction) → ℕ → Result Failure Fraction
custom_delay (err e) most = err e
custom_delay (ok none) most = err bad_jitter
custom_delay (ok (some custom)) most = ok (min_ms custom most)

-- The delay where the response names none.
pub own_delay : Policy → ℕ → Fraction → Result Failure Fraction
own_delay p attempt random = elim p.jitter [
  | none ↦ scale_random (exponential_ms p attempt) random
  | some jitter ↦ custom_delay (jitter attempt p.base_delay_ms) p.max_delay_ms
]

abbrev pub retry_after_of : Option Response → Option (List ℕ)
retry_after_of none = none
retry_after_of (some r) = r.retry_after

-- `date_parse` is the platform's `Date.parse`, and `now` what its clock shows.
pub bounded_delay_ms :
    (List ℕ → Option ℕ) → Policy → ℕ → Option Response → ℕ → Fraction → Result Failure Fraction
bounded_delay_ms date_parse p attempt response now random =
    elim (parse_retry_after_ms date_parse (retry_after_of response) now) [
      | some delay ↦ ok (min_ms delay p.max_delay_ms)
      | none ↦ own_delay p attempt random
    ]
