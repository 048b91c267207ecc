-- ===== src/Persistence/ServiceRequests/History.antt =====
-- Histories of calls on the table of service requests, by any number of callers.
use Prim.Native.String.{String}
use wats.Base.{ℕ, ◌≤◌, ◌≡◌, refl, ◌≢◌, Bool, List, [], ◌∷◌, arith}
use wats.Persistence.ServiceRequests.{Store}
use wats.Persistence.ServiceRequests.Slots.{Slot, free, finished, slot, IsWhole}
use wats.Persistence.ServiceRequests.Calls.{Call, step, run, open_slots}
use wats.Persistence.ServiceRequests.Progress.{step-Progress}

run-wins :
    (is_json : String → Bool) (k : String) (s : Store) (calls : List Call)
    → IsWhole s
    → (run is_json k s calls).1 ≤ open_slots (slot k s)
unfolding run
run-wins is_json k s [] w = omega arith
run-wins is_json k s (c ∷ calls) w =
    let p = step-Progress is_json k s c w in
    ground (arith, p.budget, run-wins is_json k (step is_json k s c).0 calls p.whole)

-- From a store whose completed rows have their response, and over any history of claims, completions
-- and records, with valid or invalid inputs and failures of the engine, at most one claim of a key is
-- granted, and none where the key was taken at first.
pub run-at-most-once :
    (is_json : String → Bool) (k : String) (s : Store) (calls : List Call)
    → IsWhole s
    → ((run is_json k s calls).1 ≤ 1) × (slot k s ≢ free → (run is_json k s calls).1 ≡ 0)
run-at-most-once is_json k s calls w =
    let most = run-wins is_json k s calls w in
    (open_once (slot k s) most, λ taken. open_never (slot k s) taken most)
  where
    open_once : {n : ℕ} (x : Slot) → n ≤ open_slots x → n ≤ 1
    open_once free h = h
    open_once x h = omega arith

    open_never : {n : ℕ} (x : Slot) → x ≢ free → n ≤ open_slots x → n ≡ 0
    open_never free t h = absurd (t refl)
    open_never x t h = omega arith

-- In a store whose completed rows have their response, a finished request keeps its hash and its
-- response through any history.
pub run-finished :
    (is_json : String → Bool) (k h json : String) (s : Store) (calls : List Call)
    → IsWhole s
    → slot k s ≡ finished h json
    → slot k (run is_json k s calls).0 ≡ finished h json
unfolding run
run-finished is_json k h json s [] w e = e
run-finished is_json k h json s (c ∷ calls) w e =
    let p = step-Progress is_json k s c w in
    run-finished is_json k h json (step is_json k s c).0 calls p.whole (p.fixed h json e)
