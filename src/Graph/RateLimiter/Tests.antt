-- ===== src/Graph/RateLimiter/Tests.antt =====
-- Runs of the token bucket, and its theorems at concrete inputs.
use wats.Base.{ℕ, ◌≤◌, ◌≡◌, refl, true, false, none, some, List, [], ◌∷◌}
use wats.Base.Result.{ok, err}
use wats.Graph.RateLimiter.{
  Options, Bucket, Turn, absent, signal, admitted, rejected, aborted, invalid_cost, create,
  try_acquire, acquire, admit, refill, assert_capacity, assert_refill_per_second, assert_cost,
  acquire_valid, Attempt, run, wait_loop, slept, sleep_rejects, sleep_failed,
}
use wats.Graph.RateLimiter.Admission.{run-le-capacity}
use wats.Graph.RateLimiter.Waiting.{Outcome, acquire-Outcome}

-- Five tokens, refilled at five halves of a token a second.
abbrev options : Options
options = record { capacity = 5; refill_num = 5; refill_den = 2 }

abbrev bucket : ℕ → ℕ → Bucket
bucket tokens now = record { tokens = tokens; last_refill_ms = now }

abbrev turn : ℕ → Turn
turn now = record { others = []; aborted_before = false; now = now; wait = slept }

abbrev attempts : List Attempt
attempts =
    record { now = 10; cost = 4 }
    ∷ record { now = 20; cost = 4 }
    ∷ record { now = 1220; cost = 4 }
    ∷ []

create_full : create options 0 ≡ ok (bucket 10000 0)
unfolding create assert_capacity assert_refill_per_second
create_full = refl

try_acquire_twice : try_acquire options 400 (some 3) (bucket 2000 0) ≡ ok (bucket 4000 400, false)
unfolding try_acquire assert_cost admit refill
try_acquire_twice = refl

try_acquire_too_much : try_acquire options 400 (some 6) (bucket 2000 0) ≡ err invalid_cost
unfolding try_acquire assert_cost
try_acquire_too_much = refl

-- The full bucket lets five tokens pass at once, and a sixth no more.
abbrev burst : List Attempt
burst =
    record { now = 5000; cost = 3 }
    ∷ record { now = 5000; cost = 2 }
    ∷ record { now = 5000; cost = 1 }
    ∷ []

burst_passes : (run options burst (bucket 10000 0)).1 ≡ 5
unfolding run admit refill
burst_passes = refl

run-le-capacity_example : (run options burst (run options attempts (bucket 10000 0)).0).1 ≤ 5
run-le-capacity_example =
    run-le-capacity options 0 (bucket 10000 0) attempts 5000 burst create_full
      (refl, (refl, (refl, tt)))

acquire_after_sleep :
    acquire options none absent (turn 100 ∷ turn 500 ∷ []) (bucket 0 0) ≡ admitted (bucket 500 500)
unfolding acquire acquire_valid assert_cost wait_loop run admit refill
acquire_after_sleep = refl

-- Another caller takes the token during the first wait, and the second wait fails.
abbrev turns : List Turn
turns =
    turn 100
    ∷ record (turn 500) { others = record { now = 450; cost = 1 } ∷ []; wait = sleep_rejects }
    ∷ []

acquire_sleep_rejects :
    acquire options none absent turns (bucket 0 0) ≡ rejected sleep_failed (bucket 500 500)
unfolding acquire acquire_valid assert_cost wait_loop run admit refill
acquire_sleep_rejects = refl

acquire-Outcome_example :
    Outcome options 1 turns (bucket 0 0) absent (acquire options none absent turns (bucket 0 0))
acquire-Outcome_example = acquire-Outcome options none absent turns (bucket 0 0)

acquire_aborted : acquire options none (signal true) [] (bucket 7 0) ≡ rejected aborted (bucket 7 0)
unfolding acquire acquire_valid assert_cost
acquire_aborted = refl
