-- ===== src/Graph/RateLimiter/Admission.antt =====
-- How much a token bucket lets through at once, after any history of calls by any number of callers.
use wats.Base.{
  ℕ, ◌+◌, ◌*◌, ◌≤◌, ◌<◌, ◌≡◌, sym, ◌∙◌, Bool, true, false, Bool-cases, inl, inr, leb, List, [], ◌∷◌,
  All, arith, if◌then◌else◌,
}
use wats.Base.Result.{ok}
use wats.Graph.RateLimiter.{
  Options, Bucket, Attempt, run, token, create, admit, refill, assert_capacity,
  assert_refill_per_second,
}

-- The bucket never holds more than its capacity.
pub record IsFilled (o : Options) (b : Bucket) : Type 0 where
  pub bounded : b.tokens ≤ o.capacity * token o

pub create-IsFilled : (o : Options) (now : ℕ) (b : Bucket) → create o now ≡ ok b → IsFilled o b
unfolding create assert_capacity assert_refill_per_second
create-IsFilled o now b h = ground arith

create-token : (o : Options) (now : ℕ) (b : Bucket) → create o now ≡ ok b → 0 < token o
unfolding create assert_capacity assert_refill_per_second
create-token o now b h = ground arith

admit-last : (o : Options) (now c : ℕ) (b : Bucket) → (admit o now c b).0.last_refill_ms ≡ now
unfolding admit refill
admit-last o now c b = ground arith

admit-IsFilled :
    (o : Options) (now c : ℕ) (b : Bucket) → IsFilled o b → IsFilled o (admit o now c b).0
unfolding admit refill
admit-IsFilled o now c b h = ground arith

-- The bucket holds at most its capacity after any history of attempts, if it does at first.
run-IsFilled :
    (o : Options) (rest : List Attempt) (b : Bucket) → IsFilled o b → IsFilled o (run o rest b).0
unfolding run
run-IsFilled o [] b h = h
run-IsFilled o (a ∷ rest) b h =
    run-IsFilled o rest (admit o a.now a.cost b).0 (admit-IsFilled o a.now a.cost b h)

abbrev spent : Bool → ℕ → ℕ
spent done c = if done then c else 0

-- What an attempt takes and leaves is at most the capacity.
admit_budget :
    (o : Options) (now c : ℕ) (b : Bucket)
    → IsFilled o b
    → spent (admit o now c b).1 c * token o + (admit o now c b).0.tokens ≤ o.capacity * token o
unfolding admit refill
admit_budget o now c b h = grind arith

-- While the clock stands, it is at most what was there.
admit_still :
    (o : Options) (now c : ℕ) (b : Bucket)
    → now ≡ b.last_refill_ms
    → spent (admit o now c b).1 c * token o + (admit o now c b).0.tokens ≤ b.tokens
unfolding admit refill
admit_still o now c b h = grind arith

-- Every attempt of a burst reads the same time from the clock.
abbrev pub AllAt : ℕ → List Attempt → Type 0
AllAt t burst = All (λ a. a.now ≡ t) burst

-- An attempt, and then the rest of a history.
spent_then :
    (done : Bool) (c passed t left last bound : ℕ)
    → spent done c * t + left ≤ bound
    → passed * t + last ≤ left
    → (if done then c + passed else passed) * t + last ≤ bound
spent_then true c passed t left last bound h k = grind arith
spent_then false c passed t left last bound h k = omega arith

run_still :
    (o : Options) (burst : List Attempt) (b : Bucket) (t : ℕ)
    → b.last_refill_ms ≡ t
    → AllAt t burst
    → (run o burst b).1 * token o + (run o burst b).0.tokens ≤ b.tokens
unfolding run
run_still o [] b t h at = omega arith
run_still o (a ∷ rest) b t h at =
    let met : Bucket = (admit o a.now a.cost b).0 in
    let rest_le = run_still o rest met t (admit-last o a.now a.cost b ∙ at.0) at.1 in
    spent_then (admit o a.now a.cost b).1 a.cost (run o rest met).1 (token o) met.tokens
      (run o rest met).0.tokens b.tokens (admit_still o a.now a.cost b (at.0 ∙ sym h)) rest_le

run_burst :
    (o : Options) (t : ℕ) (burst : List Attempt) (b : Bucket)
    → IsFilled o b
    → AllAt t burst
    → (run o burst b).1 * token o ≤ o.capacity * token o
unfolding run
run_burst o t [] b h at = omega arith
run_burst o t (a ∷ rest) b h at =
    let met : Bucket = (admit o a.now a.cost b).0 in
    let rest_le = run_still o rest met t (admit-last o a.now a.cost b ∙ at.0) at.1 in
    omega (
      arith,
      spent_then (admit o a.now a.cost b).1 a.cost (run o rest met).1 (token o) met.tokens
          (run o rest met).0.tokens (o.capacity * token o) (admit_budget o a.now a.cost b h)
          rest_le,
    )

mul_mono : (a b t : ℕ) → a ≤ b → a * t ≤ b * t
mul_mono a b t h = grind arith

cancel_token : (a b t : ℕ) → 0 < t → a * t ≤ b * t → a ≤ b
cancel_token a b t h k = elim (Bool-cases (leb a b)) [
  | inl le ↦ ground arith
  | inr gt ↦
      let past : b + 1 ≤ a = ground arith in
      let scaled : (b + 1) * t ≤ a * t = mul_mono (b + 1) a t past in grind arith
]

-- Whatever attempts the callers of a new limiter have made before, those that pass while the clock
-- shows one time cost at most the capacity together.
pub run-le-capacity :
    (o : Options) (made : ℕ) (b : Bucket) (before : List Attempt) (t : ℕ) (burst : List Attempt)
    → create o made ≡ ok b
    → AllAt t burst
    → (run o burst (run o before b).0).1 ≤ o.capacity
run-le-capacity o made b before t burst h at =
    cancel_token (run o burst (run o before b).0).1 o.capacity (token o) (create-token o made b h) (
      run_burst o t burst (run o before b).0 (run-IsFilled o before b (create-IsFilled o made b h))
        at)
