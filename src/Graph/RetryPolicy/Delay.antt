-- ===== src/Graph/RetryPolicy/Delay.antt =====
-- The delay before a retry: its bound, and the header's precedence.
use wats.Base.{
  ℕ, ◌*◌, ◌/◌, ◌≤◌, ◌<◌, ◌≡◌, Option, none, some, List, ◌∷◌, arith, Option-cases, inl, inr, true,
}
use wats.Base.Result.{Result, ok, err}
use wats.Graph.RetryAfter.{Fraction, is_finite, parse_retry_after_ms}
use wats.Graph.RetryAfter.Digits.{Digits, digits_value, parse_retry_after_ms-Digits}
use wats.Graph.RetryPolicy.{
  Failure, Policy, Response, min_ms, scale_random, exponential_ms, own_delay, custom_delay,
  bounded_delay_ms, retry_after_of,
}

-- A fraction is at most a whole number.
abbrev pub AtMost : Fraction → ℕ → Type 0
AtMost d most = d.num ≤ most * d.den

min_ms-AtMost : (d : Fraction) (most : ℕ) → AtMost (min_ms d most) most
unfolding min_ms
min_ms-AtMost d most = ground arith

scaled-le : (ms num den : ℕ) → 0 < den → num ≤ den → ms * num / den ≤ ms
scaled-le ms num den h k = grind arith

scale_random-AtMost :
    (ms most : ℕ) (random d : Fraction) → ms ≤ most → scale_random ms random ≡ ok d → AtMost d most
unfolding scale_random
scale_random-AtMost ms most random d h e = ground (arith, scaled-le ms random.num random.den)

exponential_ms-le : (p : Policy) (attempt : ℕ) → exponential_ms p attempt ≤ p.max_delay_ms
unfolding exponential_ms
exponential_ms-le p attempt = omega arith

custom_delay-AtMost :
    (custom : Result Failure (Option Fraction)) (most : ℕ) (d : Fraction)
    → custom_delay custom most ≡ ok d
    → AtMost d most
unfolding custom_delay
custom_delay-AtMost (err x) most d e = cc
custom_delay-AtMost (ok none) most d e = cc
custom_delay-AtMost (ok (some custom)) most d e = ground (arith, min_ms-AtMost custom most)

own_delay-AtMost :
    (p : Policy) (attempt : ℕ) (random d : Fraction)
    → own_delay p attempt random ≡ ok d
    → AtMost d p.max_delay_ms
unfolding own_delay
own_delay-AtMost p attempt random d e = elim (Option-cases p.jitter) [
  | inl plain ↦
      scale_random-AtMost (exponential_ms p attempt) p.max_delay_ms random d
        (exponential_ms-le p attempt) (rw (plain, own_delay) at e)
  | inr (jitter, custom) ↦
      custom_delay-AtMost (jitter attempt p.base_delay_ms) p.max_delay_ms d
        (rw (custom, own_delay) at e)
]

-- Whatever the response, the jitter, the random number and the platform's dates are, a delay that
-- is computed is at most `maxDelayMs`.
pub bounded_delay_ms-AtMost :
    (date_parse : List ℕ → Option ℕ) (p : Policy) (attempt : ℕ) (response : Option Response)
    (now : ℕ) (random d : Fraction)
    → bounded_delay_ms date_parse p attempt response now random ≡ ok d
    → AtMost d p.max_delay_ms
unfolding bounded_delay_ms
bounded_delay_ms-AtMost date_parse p attempt response now random d e =
    elim (Option-cases (parse_retry_after_ms date_parse (retry_after_of response) now)) [
      | inl absent ↦ own_delay-AtMost p attempt random d (rw (absent, bounded_delay_ms) at e)
      | inr (delay, named) ↦
          ground (arith, rw (named, bounded_delay_ms) at e, min_ms-AtMost delay p.max_delay_ms)
    ]

-- A Retry-After header that is a text of decimal digits, of a number that a double holds, sets the
-- delay of the retry to so many seconds, cut at `maxDelayMs`, whatever jitter the policy has.
pub bounded_delay_ms-Digits :
    (date_parse : List ℕ → Option ℕ) (p : Policy) (attempt status now : ℕ) (random : Fraction)
    (c : ℕ) (s : List ℕ)
    → Digits (c ∷ s)
    → is_finite (record { num = digits_value 0 (c ∷ s); den = 1 }) ≡ true
    → bounded_delay_ms date_parse p attempt
        (some (record { status = status; retry_after = some (c ∷ s) }))
        now
        random
      ≡ ok (min_ms (record { num = digits_value 0 (c ∷ s) * 1000; den = 1 }) p.max_delay_ms)
unfolding bounded_delay_ms
bounded_delay_ms-Digits date_parse p attempt status now random c s h finite =
    rw (parse_retry_after_ms-Digits date_parse now c s h finite, bounded_delay_ms)

-- Under a policy with no `jitter`, a random number in [0, 1] gives a delay.
pub bounded_delay_ms_ok :
    (date_parse : List ℕ → Option ℕ) (p : Policy) (attempt : ℕ) (response : Option Response)
    (now : ℕ) (random : Fraction)
    → p.jitter ≡ none
    → 0 < random.den
    → random.num ≤ random.den
    → (d : Fraction) × (bounded_delay_ms date_parse p attempt response now random ≡ ok d)
unfolding bounded_delay_ms own_delay scale_random
bounded_delay_ms_ok date_parse p attempt response now random plain h k =
    elim (Option-cases (parse_retry_after_ms date_parse (retry_after_of response) now)) [
      | inl absent ↦ (
        record { num = exponential_ms p attempt * random.num / random.den; den = 1 },
        rw (absent, plain, bounded_delay_ms, own_delay) (ground arith),
      )
      | inr (d, named) ↦ (min_ms d p.max_delay_ms, rw (named, bounded_delay_ms))
    ]
