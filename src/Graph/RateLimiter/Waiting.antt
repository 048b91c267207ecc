-- ===== src/Graph/RateLimiter/Waiting.antt =====
-- The waits of `acquire`: which turn ends them, how, and with which bucket.
use wats.Base.{
  ℕ, ◌+◌, ◌*◌, ◌≤◌, ◌<◌, ◌≡◌, refl, true, false, Bool-cases, inl, inr, ◌⊎◌, Option, List, [], ◌∷◌,
  arith, leb, ltb,
}
use wats.Base.Result.{ok, err, Result-cases}
use wats.Graph.RateLimiter.{
  Options, Bucket, Turn, Wait, waited, slept, aborted_first, sleep_rejects, Waited, admitted,
  rejected, waiting, Error, aborted, sleep_failed, invalid_cost, invalid_signal, Signal, absent,
  signal, not_a_signal, run, unsignalled_all, acquire_valid, token, admit, wait_loop, acquire,
  assert_cost, refill, cost_or_one,
}

-- The bucket that a turn meets, after the attempts of the other callers, and the same once the time is
-- counted.
abbrev pub met_by : Options → Turn → Bucket → Bucket
met_by o t b = (run o t.others b).0

abbrev pub left_by : Options → Turn → Bucket → Bucket
left_by o t b = refill o t.now (met_by o t b)

-- A turn that finds the signal not aborted, and too few tokens for the cost `c`.
pub record IsShort (o : Options) (c : ℕ) (t : Turn) (b : Bucket) : Type 0 where
  pub live : t.aborted_before ≡ false
  pub few : (left_by o t b).tokens < c * token o

-- How the turns end: the first one that finds the signal aborted rejects, the first one that finds
-- enough tokens takes the cost of them, and a turn between ends the call only if its wait is
-- aborted or its sleep fails.
pub data Ends (o : Options) (c : ℕ) : List Turn → Bucket → Waited → Type 0 where
  no_turns : (b : Bucket) → Ends o c [] b (waiting b)
  at_start :
      (t : Turn) (ts : List Turn) (b : Bucket)
      → t.aborted_before ≡ true
      → Ends o c (t ∷ ts) b (rejected aborted (met_by o t b))
  passes :
      (t : Turn) (ts : List Turn) (b b' : Bucket)
      → t.aborted_before ≡ false
      → b'.tokens + c * token o ≡ (left_by o t b).tokens
      → b'.last_refill_ms ≡ (left_by o t b).last_refill_ms
      → Ends o c (t ∷ ts) b (admitted b')
  in_wait :
      (t : Turn) (ts : List Turn) (b : Bucket)
      → IsShort o c t b
      → t.wait ≡ aborted_first
      → Ends o c (t ∷ ts) b (rejected aborted (left_by o t b))
  in_sleep :
      (t : Turn) (ts : List Turn) (b : Bucket)
      → IsShort o c t b
      → t.wait ≡ sleep_rejects
      → Ends o c (t ∷ ts) b (rejected sleep_failed (left_by o t b))
  later :
      (t : Turn) (ts : List Turn) (b : Bucket) {w : Waited}
      → IsShort o c t b
      → t.wait ≡ slept
      → Ends o c ts (left_by o t b) w
      → Ends o c (t ∷ ts) b w

-- The turns as the call sees them: without a signal nothing aborts.
abbrev pub seen_turns : Signal → List Turn → List Turn
seen_turns absent turns = unsignalled_all turns
seen_turns not_a_signal turns = turns
seen_turns (signal already) turns = turns

abbrev pub IsCost : Options → ℕ → Type 0
IsCost o c = (1 ≤ c) × (c ≤ o.capacity)

-- What comes of a call, from its arguments on.
pub data Outcome (o : Options) (c : ℕ) (turns : List Turn) (b : Bucket)
    : Signal → Waited → Type 0 where
  bad_cost :
      (s : Signal) → (c < 1) ⊎ (o.capacity < c) → Outcome o c turns b s (rejected invalid_cost b)
  bad_signal : IsCost o c → Outcome o c turns b not_a_signal (rejected invalid_signal b)
  aborted_already : IsCost o c → Outcome o c turns b (signal true) (rejected aborted b)
  without_signal :
      {w : Waited}
      → IsCost o c
      → Ends o c (seen_turns absent turns) b w
      → Outcome o c turns b absent w
  with_signal :
      {w : Waited} → IsCost o c → Ends o c turns b w → Outcome o c turns b (signal false) w

refused-refill :
    (o : Options) (now c : ℕ) (b : Bucket)
    → (admit o now c b).1 ≡ false
    → ((admit o now c b).0 ≡ refill o now b) × ((refill o now b).tokens < c * token o)
unfolding admit
refused-refill o now c b h = elim (Bool-cases (leb (c * token o) (refill o now b).tokens)) [
  | inl e ↦ ground (arith, e, h)
  | inr e ↦ (rw e refl, ground (arith, e))
]

admitted-refill :
    (o : Options) (now c : ℕ) (b : Bucket)
    → (admit o now c b).1 ≡ true
    → ((admit o now c b).0.tokens + c * token o ≡ (refill o now b).tokens)
      × ((admit o now c b).0.last_refill_ms ≡ (refill o now b).last_refill_ms)
unfolding admit
admitted-refill o now c b h = elim (Bool-cases (leb (c * token o) (refill o now b).tokens)) [
  | inl e ↦ (rw e (ground (arith, e)), rw e refl)
  | inr e ↦ ground (arith, e, h)
]

waited-Ends :
    (o : Options) (c : ℕ) (t : Turn) (ts : List Turn) (b : Bucket) (w : Wait) (rest : Waited)
    → IsShort o c t b
    → t.wait ≡ w
    → Ends o c ts (left_by o t b) rest
    → Ends o c (t ∷ ts) b (waited w (left_by o t b) rest)
waited-Ends o c t ts b slept rest live w h = later t ts b live w h
waited-Ends o c t ts b aborted_first rest live w h = in_wait t ts b live w
waited-Ends o c t ts b sleep_rejects rest live w h = in_sleep t ts b live w

wait_loop-Ends :
    (o : Options) (c : ℕ) (turns : List Turn) (b : Bucket)
    → Ends o c turns b (wait_loop o c turns b)
unfolding wait_loop
wait_loop-Ends o c [] b = no_turns b
wait_loop-Ends o c (t ∷ ts) b = elim (Bool-cases t.aborted_before) [
  | inl gone ↦ simp gone (at_start t ts b gone)
  | inr live ↦ simp live (elim (Bool-cases (admit o t.now c (met_by o t b)).1) [
    | inl done ↦
        let took = admitted-refill o t.now c (met_by o t b) done in
        rw done (passes t ts b (admit o t.now c (met_by o t b)).0 live took.0 took.1)
    | inr short ↦
        let left = refused-refill o t.now c (met_by o t b) short in
        rw (short, left.0)
          (waited-Ends o c t ts b t.wait _ (record { live = live; few = left.1 }) refl
            (wait_loop-Ends o c ts (left_by o t b)))
  ])
]

acquire_valid-Outcome :
    (o : Options) (c : ℕ) (s : Signal) (turns : List Turn) (b : Bucket)
    → IsCost o c
    → Outcome o c turns b s (acquire_valid o c s turns b)
unfolding acquire_valid
acquire_valid-Outcome o c absent turns b h =
    without_signal h (wait_loop-Ends o c (unsignalled_all turns) b)
acquire_valid-Outcome o c not_a_signal turns b h = bad_signal h
acquire_valid-Outcome o c (signal true) turns b h = aborted_already h
acquire_valid-Outcome o c (signal false) turns b h = with_signal h (wait_loop-Ends o c turns b)

assert_cost-ok :
    (o : Options) (cost : Option ℕ) (c : ℕ)
    → assert_cost o cost ≡ ok c
    → (cost_or_one cost ≡ c) × IsCost o c
unfolding assert_cost
assert_cost-ok o cost c h = ground arith

assert_cost-err :
    (o : Options) (cost : Option ℕ) (e : Error)
    → assert_cost o cost ≡ err e
    → (e ≡ invalid_cost) × ((cost_or_one cost < 1) ⊎ (o.capacity < cost_or_one cost))
unfolding assert_cost
assert_cost-err o cost e h = elim (Bool-cases (ltb (cost_or_one cost) 1)) [
  | inl less ↦ (ground arith, inl (ground (arith, less)))
  | inr enough ↦ elim (Bool-cases (ltb o.capacity (cost_or_one cost))) [
    | inl more ↦ (ground arith, inr (ground (arith, more)))
    | inr fits ↦ absurd (ground (arith, enough, fits, h))
  ]
]

-- What comes of a call of `acquire`, for every bucket, argument and history of its turns. With a cost
-- that is not from 1 to the capacity, with a value that is no signal, or with a signal that is aborted
-- already, it rejects and leaves the bucket as it is. Otherwise its turns decide: one that finds
-- the signal aborted rejects and takes nothing; one that finds enough tokens takes exactly the cost;
-- any other counts the time and waits, and is the last only if the wait is aborted or the sleep
-- fails, when it rejects and takes nothing of what the other callers and the refills have left.
pub acquire-Outcome :
    (o : Options) (cost : Option ℕ) (s : Signal) (turns : List Turn) (b : Bucket)
    → Outcome o (cost_or_one cost) turns b s (acquire o cost s turns b)
unfolding acquire
acquire-Outcome o cost s turns b = elim (Result-cases (assert_cost o cost)) [
  | inl (c, e) ↦
      let is_cost = assert_cost-ok o cost c e in
      rw (e, is_cost.0, acquire) (acquire_valid-Outcome o c s turns b is_cost.1)
  | inr (x, e) ↦
      let is_bad = assert_cost-err o cost x e in rw (e, is_bad.0, acquire) (bad_cost s is_bad.1)
]
