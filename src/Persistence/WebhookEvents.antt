-- ===== src/Persistence/WebhookEvents.antt =====
-- packages/persistence/src/sqlite.ts, the table `wats_webhook_events`: the keys of updates that were
-- received. `fault` says that the database engine fails the statement otherwise than by a constraint.
pub mod Fresh
use Prim.Native.String.{String}
use wats.Base.{ℕ, Bool, not, none, some, List}
use wats.Base.Result.{Result, ok, err, ◌>>=◌, ◌>>◌, guard}
use wats.Persistence.Validation.{ErrorCode, migration_failed, store_closed, validate_string}
use wats.Persistence.Table.{find, append}

pub record Row : Type 0 where
  pub event_key : String
  pub event_hash : String
  pub received_at : ℕ

pub record Store : Type 0 where
  pub closed : Bool
  pub rows : List Row

abbrev pub row_key : Row → String
row_key r = r.event_key

-- `WebhookEventRecordResult`
pub data RecordResult : Type 0 where
  recorded duplicate : RecordResult

-- The `INSERT`, whose violation of the primary key makes the event a duplicate.
unfoldable pub insert_event : Row → Store → Store × RecordResult
insert_event r s = elim (find row_key r.event_key s.rows) [
  | some old ↦ (s, duplicate)
  | none ↦ (record s { rows = append row_key r s.rows }, recorded)
]

unfoldable pub record_webhook_event :
    Bool → Store → String → String → ℕ → Result ErrorCode (Store × RecordResult)
record_webhook_event fault s key hash at = do
  guard (not s.closed) store_closed
  validate_string key
  validate_string hash
  guard (not fault) migration_failed
  ok (insert_event (record { event_key = key; event_hash = hash; received_at = at }) s)
