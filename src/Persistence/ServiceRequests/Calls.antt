-- ===== src/Persistence/ServiceRequests/Calls.antt =====
-- Calls on the table of service requests, and what each does to the slot of a key.
use Prim.Native.String.{String}
use text.Mathlib.Text.{◌==◌ as str_eq}
use text.Mathlib.TextEquality.{eq_iff}
use wats.Base.{
  ℕ, suc, ◌+◌, ◌≤◌, ◌≡◌, inl, inr, Bool-cases, Bool, true, false, ◌&&◌, List, [], ◌∷◌, arith,
  if◌then◌else◌,
}
use wats.Base.Result.{Result, ok, err}
use wats.Persistence.Validation.{ErrorCode}
use wats.Persistence.ServiceRequests.{
  Store, ClaimResult, granted, claim_service_request, complete_service_request,
  record_service_request,
}
use wats.Persistence.ServiceRequests.Slots.{Slot, free, finished, slot, IsWhole, Changes}

-- The calls that change the table; the first argument is whether the engine fails.
pub data Call : Type 0 where
  claims : Bool → String → String → ℕ → Call
  completes : Bool → String → String → String → ℕ → Call
  records : Bool → String → String → String → ℕ → Call

abbrev pub is_granted : ClaimResult → Bool
is_granted granted = true
is_granted _ = false

abbrev pub after : Store → Result ErrorCode Store → Store
after s (ok s') = s'
after s (err e) = s

abbrev pub after_claim : Store → Result ErrorCode (Store × ClaimResult) → Store × Bool
after_claim s (ok (s', a)) = (s', is_granted a)
after_claim s (err e) = (s, false)

module _ (is_json : String → Bool) where
  -- A call that throws changes nothing. The flag says that a claim of the key `k` is granted.
  unfoldable pub step : String → Store → Call → Store × Bool
  step k s (claims fault key hash at) =
      let (s', won) = after_claim s (claim_service_request fault s key hash at) in
      (s', str_eq key k && won)
  step k s (completes fault key hash json at) =
      (after s (complete_service_request is_json fault s key hash json at), false)
  step k s (records fault key hash json at) =
      (after s (record_service_request is_json fault s key hash json at), false)

  -- The store after a history, and how many claims of the key `k` it granted.
  unfoldable pub run : String → Store → List Call → Store × ℕ
  run k s [] = (s, 0)
  run k s (c ∷ calls) =
      let (s', won) = step k s c in
      let (s'', wins) = run k s' calls in (s'', if won then suc wins else wins)

abbrev pub open_slots : Slot → ℕ
open_slots free = 1
open_slots _ = 0

abbrev pub wins_of : Bool → ℕ
wins_of true = 1
wins_of false = 0

-- A step uses up the free slot that it grants, and keeps what is finished.
pub record Progress (k : String) (s s' : Store) (won : Bool) : Type 0 where
  pub whole : IsWhole s'
  pub budget : wins_of won + open_slots (slot k s') ≤ open_slots (slot k s)
  pub fixed : (h json : String) → slot k s ≡ finished h json → slot k s' ≡ finished h json

pub Progress-same : (k : String) (s : Store) → IsWhole s → Progress k s s false
Progress-same k s w = record { whole = w; budget = omega arith; fixed = λ h json e. e }

pub Progress-change :
    (k key : String) (s s' : Store) (change : Slot → Slot) (won : Bool)
    → Changes s s' key change
    → (key ≡ k → wins_of won + open_slots (change (slot k s)) ≤ open_slots (slot k s))
    → (str_eq key k ≡ false → won ≡ false)
    → ((h json : String)
        → key ≡ k
        → slot k s ≡ finished h json
        → change (slot k s) ≡ finished h json)
    → Progress k s s' won
Progress-change k key s s' change won c b n f = elim (Bool-cases (str_eq key k)) [
  | inl same ↦ record {
    whole = c.whole;
    budget = rw (c.slots k, same) (b ((eq_iff key k).0 same));
    fixed = λ h json e. rw (c.slots k, same) (f h json ((eq_iff key k).0 same) e);
  }
  | inr other ↦ record {
    whole = c.whole;
    budget = rw (c.slots k, other, n other) (omega arith);
    fixed = λ h json e. rw (c.slots k, other) e;
  }
]
