-- ===== src/Graph/RetryPolicy/Tests.antt =====
-- Runs of the retry policy, and its theorems at concrete inputs.
use wats.Base.{ℕ, ◌≡◌, ◌↔◌, ◌⊎◌, refl, true, false, Option, none, some, List, [], ◌∷◌}
use wats.Base.Result.{ok, err}
use wats.Graph.RetryAfter.{Fraction, is_finite, parse_retry_after_ms}
use wats.Graph.RetryPolicy.{
  post, Request, Response, network, Policy, network_only, Options, resolve_policy,
  resolve_retry_post_mode, base_above_max, response_context, failure_context, has_idempotency_key,
  default_retry_on, bounded_delay_ms, own_delay, scale_random, exponential_ms, min_ms,
}
use wats.Graph.RetryPolicy.Delay.{AtMost, bounded_delay_ms-AtMost, bounded_delay_ms-Digits}
use wats.Graph.RetryPolicy.Posts.{IsThrottled, IsAllowed, default_retry_on_iff}

abbrev policy : Policy
policy = record {
  retries = 3;
  base_delay_ms = 200;
  max_delay_ms = 30000;
  jitter = none;
  retry_on = none;
  retry_posts = network_only;
  rate_limited = false;
}

abbrev keyed_post : Request
keyed_post = record { method = post; headers = "idempotency-key" ∷ [] }

abbrev half : Fraction
half = record { num = 1; den = 2 }

abbrev no_dates : List ℕ → Option ℕ
no_dates s = none

abbrev busy : Response
busy = record { status = 503; retry_after = none }

abbrev options : Options
options = record {
  retries = none;
  base_delay_ms = some 500;
  max_delay_ms = some 400;
  timeout_ms = none;
  jitter = none;
  retry_on = none;
  retry_posts = none;
  rate_limited = false;
}

resolve_policy_refuses : resolve_policy options ≡ err base_above_max
unfolding resolve_policy
resolve_policy_refuses = refl

resolve_policy_defaults :
    resolve_policy (record options {
      base_delay_ms = none;
      retry_posts = some "network-only";
      max_delay_ms = none;
    })
    ≡ ok policy
unfolding resolve_policy resolve_retry_post_mode
resolve_policy_defaults = refl

third_delay : bounded_delay_ms no_dates policy 3 none 0 half ≡ ok (record { num = 400; den = 1 })
unfolding bounded_delay_ms own_delay scale_random exponential_ms parse_retry_after_ms
third_delay = refl

bounded_delay_ms-AtMost_example : AtMost (record { num = 400; den = 1 }) 30000
bounded_delay_ms-AtMost_example =
    bounded_delay_ms-AtMost no_dates policy 3 none 0 half (record { num = 400; den = 1 })
      third_delay

default_retry_on_iff_example :
    ((default_retry_on network_only (response_context 1 keyed_post busy) ≡ true) ↔ (
      IsThrottled (some busy)
      ⊎ IsAllowed network_only (has_idempotency_key keyed_post) post (some busy) none))
    × ((default_retry_on network_only (failure_context 1 keyed_post (network 0)) ≡ true) ↔ (
        IsThrottled none
        ⊎ IsAllowed network_only (has_idempotency_key keyed_post) post none (some (network 0))))
default_retry_on_iff_example = default_retry_on_iff network_only 1 keyed_post busy (network 0)

-- "Retry-After: 60" is cut at the thirty seconds of the policy.
bounded_delay_ms-Digits_example :
    bounded_delay_ms no_dates policy 1
      (some (record { status = 429; retry_after = some (b'6' ∷ b'0' ∷ []) }))
      0
      half
    ≡ ok (record { num = 30000; den = 1 })
unfolding min_ms is_finite
bounded_delay_ms-Digits_example =
    bounded_delay_ms-Digits no_dates policy 1 429 0 half b'6' (b'0' ∷ []) (refl, (refl, tt)) refl
