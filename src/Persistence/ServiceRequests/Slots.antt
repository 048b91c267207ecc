-- ===== src/Persistence/ServiceRequests/Slots.antt =====
-- What the table of service requests promises: each key is a slot that goes from free to reserved to
-- finished, and each method acts on the slot of its key alone.
use Prim.Native.String.{String}
use text.Mathlib.Text.{◌==◌ as str_eq}
use text.Mathlib.TextEquality.{eq_iff}
use text.Mathlib.TextPositions.{eq_refl}
use wats.Base.{ℕ, ◌≡◌, refl, Bool, true, false, Option, none, some, List, arith, if◌then◌else◌}
use wats.Base.Result.{Result, ok, err}
use wats.Persistence.Validation.{ErrorCode, completion_failed, is_record_string}
use wats.Persistence.Table.{find}
use wats.Persistence.Table.Laws.{find-append}
use wats.Persistence.ServiceRequests.{
  claimed, Row, Store, row_key, LookupResult, missing, conflicting, stored, ClaimResult, granted,
  pending, conflict, response, insert_or_ignore, is_completed, with_rows, claim_answer,
  claim_service_request,
}

pub data Slot : Type 0 where
  free : Slot
  reserved : String → Slot
  finished : String → String → Slot

unfoldable pub slot_claim : String → Slot → Slot × ClaimResult
slot_claim hash free = (reserved hash, granted)
slot_claim hash (reserved h) = (reserved h, if str_eq h hash then pending else conflict)
slot_claim hash (finished h json) =
    (finished h json, if str_eq h hash then response json else conflict)

unfoldable pub slot_complete : String → String → Slot → Result ErrorCode Slot
slot_complete hash json free = err completion_failed
slot_complete hash json (reserved h) =
    if str_eq h hash then ok (finished h json) else err completion_failed
slot_complete hash json (finished h old) =
    if str_eq h hash then ok (finished h old) else err completion_failed

unfoldable pub slot_record : String → String → Slot → Slot
slot_record hash json free = finished hash json
slot_record hash json (reserved h) = reserved h
slot_record hash json (finished h old) = finished h old

unfoldable pub slot_get : String → Slot → LookupResult
slot_get hash free = missing
slot_get hash (reserved h) = if str_eq h hash then missing else conflicting
slot_get hash (finished h json) = if str_eq h hash then stored json else conflicting

-- The slot that a row stands for. A completed row has its response.
abbrev pub row_slot : Option Row → Slot
row_slot none = free
row_slot (some r) =
    if is_completed r.status
    then elim r.response_json [
      | none ↦ reserved r.request_hash
      | some json ↦ finished r.request_hash json
    ]
    else reserved r.request_hash

abbrev pub is_whole : Option Row → Bool
is_whole none = true
is_whole (some r) =
    if is_completed r.status then elim r.response_json [ none ↦ false | some json ↦ true ] else true

unfoldable pub slot : String → Store → Slot
slot k s = row_slot (find row_key k s.rows)

-- Every completed row has its response.
abbrev pub IsWhole : Store → Type 0
IsWhole s = (k : String) → is_whole (find row_key k s.rows) ≡ true

-- The store takes calls.
pub record IsReady (s : Store) (key hash : String) : Type 0 where
  pub is_open : s.closed ≡ false
  pub key_valid : is_record_string key ≡ true
  pub hash_valid : is_record_string hash ≡ true
  pub whole : IsWhole s

-- A store whose slots are those of another, but for the slot of one key.
pub record Changes (s s' : Store) (key : String) (change : Slot → Slot) : Type 0 where
  pub slots : (j : String) → slot j s' ≡ (if str_eq key j then change (slot j s) else slot j s)
  pub whole : IsWhole s'
  pub closed : s'.closed ≡ s.closed

pub find-insert_or_ignore :
    (j : String) (r : Row) (rows : List Row)
    → find row_key j (insert_or_ignore r rows).0 ≡ (elim (find row_key j rows) [
      | some x ↦ some x
      | none ↦ if str_eq r.idempotency_key j then some r else none
    ])
unfolding insert_or_ignore
find-insert_or_ignore j r rows =
    ground (arith, eq_iff r.idempotency_key j, find-append row_key j r rows)

insert_or_ignore-new :
    (r : Row) (rows : List Row)
    → (insert_or_ignore r rows).1
      ≡ (elim (find row_key r.idempotency_key rows) [ some x ↦ false | none ↦ true ])
unfolding insert_or_ignore
insert_or_ignore-new r rows = ground arith

abbrev pub reservation : String → String → ℕ → Row
reservation key hash at = record {
  idempotency_key = key;
  request_hash = hash;
  response_json = none;
  created_at = at;
  status = claimed;
}

claimed-slots :
    (s : Store) (key hash j : String) (at : ℕ)
    → slot j (with_rows s (insert_or_ignore (reservation key hash at) s.rows).0)
      ≡ (if str_eq key j then (slot_claim hash (slot j s)).0 else slot j s)
unfolding slot slot_claim
claimed-slots s key hash j at =
    ground (arith, eq_iff key j, find-insert_or_ignore j (reservation key hash at) s.rows)

claimed-IsWhole :
    (s : Store) (key hash : String) (at : ℕ)
    → IsWhole s
    → IsWhole (with_rows s (insert_or_ignore (reservation key hash at) s.rows).0)
claimed-IsWhole s key hash at w j =
    ground (arith, w j, find-insert_or_ignore j (reservation key hash at) s.rows)

claimed-answer :
    (s : Store) (key hash : String) (at : ℕ)
    → IsReady s key hash
    → claim_service_request false s key hash at
      ≡ ok (
        with_rows s (insert_or_ignore (reservation key hash at) s.rows).0,
        (slot_claim hash (slot key s)).1,
      )
unfolding claim_service_request claim_answer slot slot_claim
claimed-answer s key hash at v = ground (
  arith,
  v.is_open,
  v.key_valid,
  v.hash_valid,
  v.whole key,
  eq_refl key,
  insert_or_ignore-new (reservation key hash at) s.rows,
  find-insert_or_ignore key (reservation key hash at) s.rows,
)

-- On an open store whose completed rows have their response, and with a valid key and hash, a claim
-- with no failing statement takes a free slot, reports a reservation under the same hash as pending, replays a finished
-- request, and refuses another hash; no other slot changes.
pub claim_service_request-Changes :
    (s : Store) (key hash : String) (at : ℕ)
    → IsReady s key hash
    → (s' : Store) × (claim_service_request false s key hash at
        ≡ ok (s', (slot_claim hash (slot key s)).1))
      × Changes s s' key (λ x. (slot_claim hash x).0)
claim_service_request-Changes s key hash at v = (
  _,
  claimed-answer s key hash at v,
  record {
    slots = λ j. claimed-slots s key hash j at;
    whole = claimed-IsWhole s key hash at v.whole;
    closed = refl;
  },
)
