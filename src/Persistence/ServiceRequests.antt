-- ===== src/Persistence/ServiceRequests.antt =====
-- packages/persistence/src/sqlite.ts, the table `wats_service_requests`: durable claims of requests.
-- Each method runs as one step on the table. `fault` says that the database engine fails the
-- statement, and `is_json` is the language's test of JSON text.
pub mod Slots
pub mod Completion
pub mod Calls
pub mod Progress
pub mod History
mod Tests
use Prim.Native.String.{String}
use text.Mathlib.Text.{◌==◌ as str_eq}
use wats.Base.{ℕ, Bool, true, false, not, Option, none, some, List, [], ◌∷◌, if◌then◌else◌}
use wats.Base.Result.{Result, ok, err, ◌>>=◌, ◌>>◌, guard}
use wats.Persistence.Validation.{
  ErrorCode, invalid_record, outbox_failed, claim_failed, completion_failed, store_closed,
  migration_failed, validate_string,
}
use wats.Persistence.Table.{find, append, modify}

pub data Status : Type 0 where
  claimed completed : Status

pub record Row : Type 0 where
  pub idempotency_key : String
  pub request_hash : String
  pub response_json : Option String
  pub created_at : ℕ
  pub status : Status

pub record Store : Type 0 where
  pub closed : Bool
  pub rows : List Row

abbrev pub row_key : Row → String
row_key r = r.idempotency_key

pub data LookupResult : Type 0 where
  missing conflicting : LookupResult
  stored : String → LookupResult

-- `ServiceRequestClaimResult`
pub data ClaimResult : Type 0 where
  granted pending conflict : ClaimResult
  response : String → ClaimResult

-- `#assertOpen`
abbrev pub assert_open : Store → Result ErrorCode (Unit {0})
assert_open s = guard (not s.closed) store_closed

-- `INSERT OR IGNORE`: the new rows, and the count of the rows that it changed.
pub insert_or_ignore : Row → List Row → List Row × Bool
insert_or_ignore r rows = elim (find row_key r.idempotency_key rows) [
  | some old ↦ (rows, false)
  | none ↦ (append row_key r rows, true)
]

abbrev pub is_completed : Status → Bool
is_completed completed = true
is_completed claimed = false

abbrev pub with_rows : Store → List Row → Store
with_rows s rows = record s { rows = rows }

-- The answer of `getServiceRequest` for the row that it reads.
pub lookup_answer : String → Option Row → LookupResult
lookup_answer hash none = missing
lookup_answer hash (some r) =
    if not (str_eq r.request_hash hash)
    then conflicting
    else if not (is_completed r.status)
    then missing
    else elim r.response_json [ none ↦ missing | some json ↦ stored json ]

pub get_service_request : Store → String → String → Result ErrorCode LookupResult
get_service_request s key hash = do
  assert_open s
  validate_string key
  validate_string hash
  ok (lookup_answer hash (find row_key key s.rows))

pub record_service_request :
    (String → Bool) → Bool → Store → String → String → String → ℕ → Result ErrorCode Store
record_service_request is_json fault s key hash json created_at = do
  assert_open s
  validate_string json
  guard (is_json json) invalid_record
  validate_string key
  validate_string hash
  guard (not fault) outbox_failed
  let row : Row = record {
    idempotency_key = key;
    request_hash = hash;
    response_json = some json;
    created_at = created_at;
    status = completed;
  }
  ok (with_rows s (insert_or_ignore row s.rows).0)

-- The answer of `claimServiceRequest` where the key is taken, for the row that it reads again.
pub claim_answer : String → Option Row → Result ErrorCode ClaimResult
claim_answer hash none = err claim_failed
claim_answer hash (some r) =
    if not (str_eq r.request_hash hash)
    then ok conflict
    else if is_completed r.status
    then elim r.response_json [ none ↦ ok pending | some json ↦ ok (response json) ]
    else ok pending

pub claim_service_request :
    Bool → Store → String → String → ℕ → Result ErrorCode (Store × ClaimResult)
claim_service_request fault s key hash created_at = do
  assert_open s
  validate_string key
  validate_string hash
  guard (not fault) claim_failed
  let row : Row = record {
    idempotency_key = key;
    request_hash = hash;
    response_json = none;
    created_at = created_at;
    status = claimed;
  }
  let (rows, inserted) = insert_or_ignore row s.rows
  answer ← if inserted then ok granted else claim_answer hash (find row_key key rows)
  ok (with_rows s rows, answer)

-- The columns that the `UPDATE` of `completeServiceRequest` sets.
abbrev pub finish : String → ℕ → Row → Row
finish json created_at r = record r {
  response_json = some json;
  status = completed;
  created_at = created_at;
}

-- `completeServiceRequest` for the row that it reads.
pub complete_row : Store → String → String → String → ℕ → Option Row → Result ErrorCode Store
complete_row s key hash json created_at none = err completion_failed
complete_row s key hash json created_at (some r) =
    if not (str_eq r.request_hash hash)
    then err completion_failed
    else if is_completed r.status
    then ok s
    else ok (with_rows s (modify row_key key (finish json created_at) s.rows))

pub complete_service_request :
    (String → Bool) → Bool → Store → String → String → String → ℕ → Result ErrorCode Store
complete_service_request is_json fault s key hash json created_at = do
  assert_open s
  validate_string json
  guard (is_json json) invalid_record
  validate_string key
  validate_string hash
  guard (not fault) completion_failed
  complete_row s key hash json created_at (find row_key key s.rows)
