-- ===== src/Persistence/Outbox.antt =====
-- packages/persistence/src/sqlite.ts, the table `wats_outbox`: items that workers claim with a lease.
-- Each method runs as one transaction. `fault` says that the database engine fails a statement.
pub mod Keys
pub mod Kept
pub mod History
pub mod Updates
pub mod Claimed
pub mod Closed
pub mod Lease
mod Tests
use Prim.Native.String.{String, compare}
use Prim.Native.Nat.{Ordering}
use text.Mathlib.Text.{◌==◌ as str_eq}
use wats.Base.{
  ℕ, suc, ◌+◌, Bool, true, false, not, ◌&&◌, ◌||◌, Option, none, some, List, [], ◌∷◌, map, keep,
  take, ltb, leb, ◌==◌, if◌then◌else◌,
}
use wats.Base.Text.{codes}
use wats.Base.Result.{Result, ok, err, ◌>>=◌, ◌>>◌, guard}
use wats.Http.Signature.{after_prefix, digits_of}
use wats.Persistence.Validation.{
  ErrorCode, invalid_record, outbox_failed, store_closed, validate_string,
}
use wats.Persistence.Table.{find, append}

pub data Status : Type 0 where
  pending processing succeeded : Status

pub record Row : Type 0 where
  pub id : String
  pub status : Status
  pub attempts : ℕ
  pub lease_id : ℕ
  pub next_attempt_at : Option ℕ
  pub payload_hash : String
  pub created_at : ℕ
  pub updated_at : ℕ

pub record Store : Type 0 where
  pub closed : Bool
  pub rows : List Row

abbrev pub row_key : Row → String
row_key r = r.id

-- `OUTBOX_PROCESSING_LEASE_MS`
abbrev pub lease_ms : ℕ
lease_ms = 300000

abbrev pub same_status : Status → Status → Bool
same_status pending pending = true
same_status processing processing = true
same_status succeeded succeeded = true
same_status _ _ = false

pub data EnqueueResult : Type 0 where
  enqueued duplicate : EnqueueResult

abbrev pub assert_open : Store → Result ErrorCode (Unit {0})
assert_open s = guard (not s.closed) store_closed

abbrev is_some : Option (List ℕ) → Bool
is_some none = false
is_some (some x) = true

-- `/^sha256:[a-f0-9]{64}$/u`
pub is_payload_hash : String → Bool
is_payload_hash value = is_some (digits_of (after_prefix (codes "sha256:") (codes value)))

-- The row of a new item; `next_attempt_at` is `createdAt` if it is absent.
pub new_row : String → String → ℕ → Option ℕ → Row
new_row id payload_hash created_at next_attempt_at = record {
  id = id;
  status = pending;
  attempts = 0;
  lease_id = 0;
  next_attempt_at = some (elim next_attempt_at [ none ↦ created_at | some at ↦ at ]);
  payload_hash = payload_hash;
  created_at = created_at;
  updated_at = created_at;
}

-- The `INSERT`, whose violation of the primary key makes the item a duplicate.
pub insert_new : Row → Store → Store × EnqueueResult
insert_new r s = elim (find row_key r.id s.rows) [
  | some old ↦ (s, duplicate)
  | none ↦ (record s { rows = append row_key r s.rows }, enqueued)
]

pub enqueue_outbox_item :
    Bool → Store → String → String → ℕ → Option ℕ → Result ErrorCode (Store × EnqueueResult)
enqueue_outbox_item fault s id payload_hash created_at next_attempt_at = do
  assert_open s
  validate_string id
  validate_string payload_hash
  guard (is_payload_hash payload_hash) invalid_record
  guard (not fault) outbox_failed
  ok (insert_new (new_row id payload_hash created_at next_attempt_at) s)

abbrev pub is_reached : Option ℕ → ℕ → Bool
is_reached none now = true
is_reached (some at) now = leb at now

-- The `WHERE` clause of the claim: a pending row whose time has come, or a lease that has run out.
unfoldable pub is_due : ℕ → Row → Bool
is_due now r =
    (same_status r.status pending && is_reached r.next_attempt_at now)
    || (same_status r.status processing && leb (r.updated_at + lease_ms) now)

abbrev text_le : String → String → Bool
text_le a b = elim (compare a b) [ Ordering.gt ↦ false | _ ↦ true ]

-- `ORDER BY created_at ASC, id ASC`
unfoldable pub comes_first : Row → Row → Bool
comes_first a b =
    ltb a.created_at b.created_at || (a.created_at == b.created_at && text_le a.id b.id)

unfoldable pub insert_ordered : Row → List Row → List Row
insert_ordered r [] = r ∷ []
insert_ordered r (x ∷ xs) = if comes_first r x then r ∷ x ∷ xs else x ∷ insert_ordered r xs

unfoldable pub ordered : List Row → List Row
ordered [] = []
ordered (r ∷ rs) = insert_ordered r (ordered rs)

-- The rows that a claim reads.
unfoldable pub selected : ℕ → ℕ → List Row → List Row
selected now limit rows = take limit (ordered (keep (is_due now) rows))

-- An `UPDATE`, with the count of the rows that it changes.
unfoldable pub update_where : (Row → Bool) → (Row → Row) → List Row → List Row × ℕ
update_where p f [] = ([], 0)
update_where p f (r ∷ rows) =
    let (rest, n) = update_where p f rows in if p r then (f r ∷ rest, suc n) else (r ∷ rest, n)

-- `WHERE id = ? AND status = ? AND lease_id = ?`
unfoldable pub is_row : String → Status → ℕ → Row → Bool
is_row id status lease r = str_eq r.id id && (same_status r.status status && r.lease_id == lease)

unfoldable pub claimed : ℕ → Row → Row
claimed now r = record r {
  status = processing;
  attempts = suc r.attempts;
  lease_id = suc r.lease_id;
  next_attempt_at = none;
  updated_at = now;
}

-- An update that must change one row.
unfoldable pub update_one : (Row → Bool) → (Row → Row) → List Row → Result ErrorCode (List Row)
update_one p f rows =
    let (rows', n) = update_where p f rows in if n == 1 then ok rows' else err outbox_failed

unfoldable pub claim_rows : ℕ → List Row → List Row → Result ErrorCode (List Row)
claim_rows now [] rows = ok rows
claim_rows now (r ∷ rs) rows =
    update_one (is_row r.id r.status r.lease_id) (claimed now) rows >>= claim_rows now rs

unfoldable pub claim_outbox_items : Bool → Store → ℕ → ℕ → Result ErrorCode (Store × List Row)
claim_outbox_items fault s now limit = do
  assert_open s
  guard (leb 1 limit && leb limit 100) invalid_record
  guard (not fault) outbox_failed
  rows ← claim_rows now (selected now limit s.rows) s.rows
  ok (record s { rows = rows }, map (claimed now) (selected now limit s.rows))

-- `validateLeaseId`
abbrev pub is_lease_id : ℕ → Bool
is_lease_id n = leb 1 n && leb n 9007199254740991

abbrev pub failed : ℕ → ℕ → Row → Row
failed next_attempt_at updated_at r = record r {
  status = pending;
  next_attempt_at = some next_attempt_at;
  updated_at = updated_at;
}

unfoldable pub mark_outbox_item_failed : Bool → Store → String → ℕ → ℕ → ℕ → Result ErrorCode Store
mark_outbox_item_failed fault s id lease next_attempt_at updated_at = do
  assert_open s
  validate_string id
  guard (is_lease_id lease) invalid_record
  guard (not fault) outbox_failed
  rows ← update_one (is_row id processing lease) (failed next_attempt_at updated_at) s.rows
  ok (record s { rows = rows })

abbrev pub finished : ℕ → Row → Row
finished updated_at r = record r {
  status = succeeded;
  next_attempt_at = none;
  updated_at = updated_at;
}

unfoldable pub mark_outbox_item_succeeded : Bool → Store → String → ℕ → ℕ → Result ErrorCode Store
mark_outbox_item_succeeded fault s id lease updated_at = do
  assert_open s
  validate_string id
  guard (is_lease_id lease) invalid_record
  guard (not fault) outbox_failed
  rows ← update_one (is_row id processing lease) (finished updated_at) s.rows
  ok (record s { rows = rows })
