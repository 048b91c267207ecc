-- ===== src/Graph/ReliableTransport/Tests.antt =====
-- Requests against scripted rounds, and the theorems on them.
use wats.Base.{
  ℕ, zero, suc, ◌≤◌, ◌≡◌, refl, inl, true, false, Option, none, some, List, [], ◌∷◌, arith,
}
use wats.Base.Result.{ok}
use wats.Graph.RetryPolicy.{post, get, Request, Response, network, other, Policy, never}
use wats.Graph.ReliableTransport.{Pause, Round, Answer, responded, failed, request}
use wats.Graph.ReliableTransport.Attempts.{Settles, request-Settles}
use wats.Graph.ReliableTransport.Resent.{IsUnthrottled, request-once}
use wats.Graph.ReliableTransport.Success.{IsQuiet, IsUntroubled, IsTransient, request-success}

abbrev policy : Policy
policy = record {
  retries = 2;
  base_delay_ms = 200;
  max_delay_ms = 30000;
  jitter = none;
  retry_on = none;
  retry_posts = never;
  rate_limited = true;
}

abbrev quiet : Pause
quiet = record {
  aborted = false;
  now = 0;
  random = record { num = 1; den = 2 };
  on_retry = none;
  sleep = none;
}

abbrev round : Answer → Round
round answer = record {
  aborted_start = false;
  limiter = none;
  aborted_admitted = false;
  answer = answer;
  after_response = quiet;
  aborted_caught = false;
  after_error = quiet;
}

abbrev status : ℕ → Response
status code = record { status = code; retry_after = none }

-- A 503, a lost connection, and then a 200.
abbrev flaky_answer : ℕ → Answer
flaky_answer zero = responded (status 503)
flaky_answer (suc zero) = failed (network 7)
flaky_answer _ = responded (status 200)

abbrev flaky : ℕ → Round
flaky k = round (flaky_answer k)

abbrev no_dates : List ℕ → Option ℕ
no_dates s = none

abbrev a_get : Request
a_get = record { method = get; headers = [] }

abbrev a_post : Request
a_post = record { method = post; headers = "idempotency-key" ∷ [] }

quiet-IsQuiet : IsQuiet quiet
quiet-IsQuiet = record {
  live = refl;
  noticed = refl;
  slept = refl;
  random_den = omega arith;
  random_num = omega arith;
}

round-IsUntroubled : (a : Answer) → IsUntroubled (round a)
round-IsUntroubled a = record {
  live = refl;
  limiter = refl;
  still_live = refl;
  live_caught = refl;
  after_response = quiet-IsQuiet;
  after_error = quiet-IsQuiet;
}

flaky-IsTransient : (k : ℕ) → suc k ≤ 2 → IsTransient (flaky k).answer
flaky-IsTransient zero h = refl
flaky-IsTransient (suc zero) h = tt
flaky-IsTransient (suc (suc k)) h = absurd (omega arith)

flaky-IsUnthrottled : (k : ℕ) → IsUnthrottled (flaky k).answer
flaky-IsUnthrottled zero = refl
flaky-IsUnthrottled (suc zero) = tt
flaky-IsUnthrottled (suc (suc k)) = refl

request-Settles_example : Settles 3 (request no_dates (other 1) policy a_get flaky)
request-Settles_example = request-Settles no_dates (other 1) policy a_get flaky

request-once_example : Settles 1 (request no_dates (other 1) policy a_post flaky)
request-once_example =
    request-once no_dates (other 1) policy a_post refl refl flaky flaky-IsUnthrottled

request-success_example :
    request no_dates (other 1) policy a_get flaky
    ≡ some (record { outcome = ok (status 200); attempts = 3 })
request-success_example =
    request-success no_dates (other 1) policy a_get refl refl refl flaky (status 200) 2
      (omega arith) (λ k h. round-IsUntroubled (flaky_answer k)) flaky-IsTransient refl (inl refl)
