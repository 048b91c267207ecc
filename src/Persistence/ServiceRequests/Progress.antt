-- ===== src/Persistence/ServiceRequests/Progress.antt =====
-- Every call on the table makes progress on the slots, or changes nothing.
use Prim.Native.String.{String}
use text.Mathlib.Text.{◌==◌ as str_eq}
use wats.Base.{ℕ, ◌+◌, ◌≤◌, ◌≡◌, refl, inl, inr, Bool, true, false, ◌&&◌, arith}
use wats.Base.Result.{ok, Result-cases}
use wats.Persistence.ServiceRequests.{
  Store, ClaimResult, claim_service_request, complete_service_request, record_service_request,
}
use wats.Persistence.ServiceRequests.Slots.{
  Slot, free, finished, slot, slot_claim, slot_complete, slot_record, IsWhole, IsReady,
  claim_service_request-Changes,
}
use wats.Persistence.ServiceRequests.Completion.{
  IsResponse, complete_service_request-Changes, complete_service_request-fails,
  record_service_request-Changes,
}
use wats.Persistence.ServiceRequests.Calls.{
  Call, claims, completes, records, is_granted, after, step, open_slots, wins_of, Progress,
  Progress-same, Progress-change,
}

claim_ok :
    (fault : Bool) (s : Store) (key hash : String) (at : ℕ) (r : Store × ClaimResult)
    → IsWhole s
    → claim_service_request fault s key hash at ≡ ok r
    → IsReady s key hash × (fault ≡ false)
unfolding claim_service_request
claim_ok fault s key hash at r w h = (
  record { is_open = ground arith; key_valid = ground arith; hash_valid = ground arith; whole = w },
  ground arith,
)

complete_ok :
    (is_json : String → Bool) (fault : Bool) (s s' : Store) (key hash json : String) (at : ℕ)
    → IsWhole s
    → complete_service_request is_json fault s key hash json at ≡ ok s'
    → IsReady s key hash × IsResponse is_json json × (fault ≡ false)
unfolding complete_service_request
complete_ok is_json fault s s' key hash json at w h = (
  record { is_open = ground arith; key_valid = ground arith; hash_valid = ground arith; whole = w },
  record { valid = ground arith; parses = ground arith },
  ground arith,
)

record_ok :
    (is_json : String → Bool) (fault : Bool) (s s' : Store) (key hash json : String) (at : ℕ)
    → IsWhole s
    → record_service_request is_json fault s key hash json at ≡ ok s'
    → IsReady s key hash × IsResponse is_json json × (fault ≡ false)
unfolding record_service_request
record_ok is_json fault s s' key hash json at w h = (
  record { is_open = ground arith; key_valid = ground arith; hash_valid = ground arith; whole = w },
  record { valid = ground arith; parses = ground arith },
  ground arith,
)

and_false : (b : Bool) → (b && false) ≡ false
and_false true = refl
and_false false = refl

slot_claim-budget :
    (b : Bool) (hash : String) (x : Slot)
    → wins_of (b && is_granted (slot_claim hash x).1) + open_slots (slot_claim hash x).0
      ≤ open_slots x
unfolding slot_claim
slot_claim-budget true hash free = omega arith
slot_claim-budget b hash x = ground arith

slot_claim-finished :
    (hash h json : String) (x : Slot)
    → x ≡ finished h json
    → (slot_claim hash x).0 ≡ finished h json
unfolding slot_claim
slot_claim-finished hash h json x e = ground arith

slot_complete-budget :
    (hash json : String) (x y : Slot)
    → slot_complete hash json x ≡ ok y
    → (open_slots y ≤ open_slots x) × ((h old : String) → x ≡ finished h old → y ≡ finished h old)
unfolding slot_complete
slot_complete-budget hash json free y e = absurd (ground arith)
slot_complete-budget hash json x y e = (ground arith, λ h old q. ground arith)

slot_record-budget :
    (hash json : String) (x : Slot) → open_slots (slot_record hash json x) ≤ open_slots x
unfolding slot_record
slot_record-budget hash json free = omega arith
slot_record-budget hash json x = omega arith

claims-Progress :
    (is_json : String → Bool) (k : String) (s : Store) (fault : Bool) (key hash : String) (at : ℕ)
    → IsWhole s
    → Progress k s
        (step is_json k s (claims fault key hash at)).0
        (step is_json k s (claims fault key hash at)).1
unfolding step
claims-Progress is_json k s fault key hash at w =
    elim (Result-cases (claim_service_request fault s key hash at)) [
      | inr (e, failed) ↦ rw (failed, step) (rw (and_false (str_eq key k)) (Progress-same k s w))
      | inl (r, won) ↦
          let (ready, sound) = claim_ok fault s key hash at r w won in
          let (s', answer, change) = claim_service_request-Changes s key hash at ready in
          rw (sound, answer, step)
            (Progress-change k key s s' _ _ change
              (λ e. rw e (slot_claim-budget (str_eq k k) hash (slot k s))) (λ e. rw e)
              (λ h json e q. slot_claim-finished hash h json (slot k s) q))
    ]

completes-Progress :
    (is_json : String → Bool) (k : String) (s : Store) (fault : Bool) (key hash json : String)
    (at : ℕ)
    → IsWhole s
    → Progress k s (after s (complete_service_request is_json fault s key hash json at)) false
completes-Progress is_json k s fault key hash json at w =
    elim (Result-cases (complete_service_request is_json fault s key hash json at)) [
      | inr (e, failed) ↦ rw failed (Progress-same k s w)
      | inl (r, done) ↦
          let (ready, valid, sound) = complete_ok is_json fault s r key hash json at w done in
          elim (Result-cases (slot_complete hash json (slot key s))) [
            | inr (e, refused) ↦ absurd (
                ground (
                  arith,
                  complete_service_request-fails is_json s key hash json at ready valid e refused,
                ))
            | inl (x, moved) ↦
                let (s', answer, change) =
                  complete_service_request-Changes is_json s key hash json at ready valid x moved in
                let (less, kept) = slot_complete-budget hash json (slot key s) x moved in
                rw (sound, answer)
                  (Progress-change k key s s' _ false change (λ e. rw (← e) (omega (arith, less)))
                    (λ e. refl) (λ h old e q. kept h old (rw e q)))
          ]
    ]

records-Progress :
    (is_json : String → Bool) (k : String) (s : Store) (fault : Bool) (key hash json : String)
    (at : ℕ)
    → IsWhole s
    → Progress k s (after s (record_service_request is_json fault s key hash json at)) false
unfolding slot_record
records-Progress is_json k s fault key hash json at w =
    elim (Result-cases (record_service_request is_json fault s key hash json at)) [
      | inr (e, failed) ↦ rw failed (Progress-same k s w)
      | inl (r, done) ↦
          let (ready, valid, sound) = record_ok is_json fault s r key hash json at w done in
          let (s', answer, change) =
            record_service_request-Changes is_json s key hash json at ready valid in
          rw (sound, answer)
            (Progress-change k key s s' _ false change
              (λ e. omega (arith, slot_record-budget hash json (slot k s))) (λ e. refl)
              (λ h old e q. rw q))
    ]

pub step-Progress :
    (is_json : String → Bool) (k : String) (s : Store) (c : Call)
    → IsWhole s
    → Progress k s (step is_json k s c).0 (step is_json k s c).1
unfolding step
step-Progress is_json k s (claims fault key hash at) w =
    claims-Progress is_json k s fault key hash at w
step-Progress is_json k s (completes fault key hash json at) w =
    completes-Progress is_json k s fault key hash json at w
step-Progress is_json k s (records fault key hash json at) w =
    records-Progress is_json k s fault key hash json at w
