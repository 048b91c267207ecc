-- ===== src/Graph/RateLimiter.antt =====
-- packages/graph/src/rateLimiter.ts: the token bucket.
-- A refill rate is a fraction `refill_num / refill_den` of tokens per second. Tokens are counted in
-- units of 1 / (1000 * refill_den) of a token, so that a refill is a whole number of units. The
-- clock is an argument of each call.
pub mod Admission
pub mod Waiting
mod Tests
use wats.Base.{
  ℕ, ◌+◌, ◌-◌, ◌*◌, min, Bool, true, false, ◌&&◌, Option, none, some, List, [], ◌∷◌, ltb, leb,
  if◌then◌else◌,
}
use wats.Base.Result.{Result, ok, err, ◌>>=◌, ◌>>◌, guard}

pub record Options : Type 0 where
  pub capacity : ℕ
  pub refill_num : ℕ
  pub refill_den : ℕ

pub record Bucket : Type 0 where
  pub tokens : ℕ
  pub last_refill_ms : ℕ

-- What the limiter throws. `aborted` is the reason of the caller's signal, `sleep_failed` what an
-- injected sleep rejects with.
pub data Error : Type 0 where
  invalid_capacity invalid_refill invalid_cost invalid_signal aborted sleep_failed : Error

abbrev pub max_capacity : ℕ
max_capacity = 10000

-- One token, in units.
abbrev pub token : Options → ℕ
token o = 1000 * o.refill_den

pub assert_capacity : ℕ → Result Error ℕ
assert_capacity value =
    if ltb value 1
    then err invalid_capacity
    else if ltb max_capacity value
    then err invalid_capacity
    else ok value

-- A rate is finite (its denominator is not 0) and positive.
pub assert_refill_per_second : Options → Result Error (Unit {0})
assert_refill_per_second o = guard (ltb 0 o.refill_den && ltb 0 o.refill_num) invalid_refill

-- `createTokenBucketRateLimiter`: the bucket starts full, and its clock at the first reading.
pub create : Options → ℕ → Result Error Bucket
create o now = do
  capacity ← assert_capacity o.capacity
  assert_refill_per_second o
  ok (record { tokens = capacity * token o; last_refill_ms = now })

-- `cost ?? 1`
abbrev pub cost_or_one : Option ℕ → ℕ
cost_or_one none = 1
cost_or_one (some c) = c

pub assert_cost : Options → Option ℕ → Result Error ℕ
assert_cost o cost =
    let c = cost_or_one cost in
    if ltb c 1 then err invalid_cost else if ltb o.capacity c then err invalid_cost else ok c

pub refill : Options → ℕ → Bucket → Bucket
refill o now b =
    if ltb b.last_refill_ms now
    then record b {
      tokens = min (o.capacity * token o) (b.tokens + (now - b.last_refill_ms) * o.refill_num);
      last_refill_ms = now;
    }
    else if ltb now b.last_refill_ms
    then record b { last_refill_ms = now }
    else b

-- `refill(); if (tokens >= c) { tokens -= c; … }`, the admission that both methods make.
pub admit : Options → ℕ → ℕ → Bucket → Bucket × Bool
admit o now c b =
    let b' = refill o now b in
    if leb (c * token o) b'.tokens
    then (record b' { tokens = b'.tokens - c * token o }, true)
    else (b', false)

pub try_acquire : Options → ℕ → Option ℕ → Bucket → Result Error (Bucket × Bool)
try_acquire o now cost b = do c ← assert_cost o cost; ok (admit o now c b)

-- The second argument of `acquire`: nothing, an `AbortSignal` with its state at the call, or a
-- value that is no signal.
pub data Signal : Type 0 where
  absent : Signal
  signal : Bool → Signal
  not_a_signal : Signal

-- An attempt to pass, by either method: the clock's reading and the cost.
pub record Attempt : Type 0 where
  pub now : ℕ
  pub cost : ℕ

-- The bucket after a history of attempts, and the sum of the costs that passed.
unfoldable pub run : Options → List Attempt → Bucket → Bucket × ℕ
run o [] b = (b, 0)
run o (a ∷ rest) b =
    let (b', done) = admit o a.now a.cost b in
    let (b'', passed) = run o rest b' in (b'', if done then a.cost + passed else passed)

-- How the wait for a refill ends: the sleep resolves, the abort wins the race, or an injected sleep
-- rejects.
pub data Wait : Type 0 where
  slept aborted_first sleep_rejects : Wait

-- One turn of the loop in `acquire`: the attempts of other callers since the turn before it, whether
-- the signal has aborted when the turn begins, what the clock shows, and how the wait ends.
pub record Turn : Type 0 where
  pub others : List Attempt
  pub aborted_before : Bool
  pub now : ℕ
  pub wait : Wait

pub data Waited : Type 0 where
  admitted : Bucket → Waited
  rejected : Error → Bucket → Waited
  -- The turns are used up and the call still waits.
  waiting : Bucket → Waited

-- The end of a wait, before the turns after it.
abbrev pub waited : Wait → Bucket → Waited → Waited
waited slept b rest = rest
waited aborted_first b rest = rejected aborted b
waited sleep_rejects b rest = rejected sleep_failed b

pub wait_loop : Options → ℕ → List Turn → Bucket → Waited
wait_loop o c [] b = waiting b
wait_loop o c (t ∷ ts) b =
    let met : Bucket = (run o t.others b).0 in
    let (b', done) = admit o t.now c met in
    let rest = wait_loop o c ts b' in
    if t.aborted_before
    then rejected aborted met
    else if done
    then admitted b'
    else waited t.wait b' rest

-- Without a signal nothing aborts.
abbrev pub unaborted : Wait → Wait
unaborted aborted_first = slept
unaborted w = w

abbrev pub unsignalled : Turn → Turn
unsignalled t = record t { aborted_before = false; wait = unaborted t.wait }

abbrev pub unsignalled_all : List Turn → List Turn
unsignalled_all [] = []
unsignalled_all (t ∷ ts) = unsignalled t ∷ unsignalled_all ts

-- `acquire` after its cost is checked.
pub acquire_valid : Options → ℕ → Signal → List Turn → Bucket → Waited
acquire_valid o c absent turns b = wait_loop o c (unsignalled_all turns) b
acquire_valid o c not_a_signal turns b = rejected invalid_signal b
acquire_valid o c (signal already) turns b =
    if already then rejected aborted b else wait_loop o c turns b

pub acquire : Options → Option ℕ → Signal → List Turn → Bucket → Waited
acquire o cost s turns b = elim (assert_cost o cost) [
  | err e ↦ rejected e b
  | ok c ↦ acquire_valid o c s turns b
]
