-- ===== src/Persistence/MessageList.antt =====
-- packages/persistence/src/sqlite.ts, `listMessages`: the messages in pages, the latest first.
pub mod Sorted
pub mod Pages
mod Tests
use Prim.Native.String.{String}
use wats.Base.{
  ℕ, suc, Bool, true, false, not, ◌&&◌, ◌||◌, Option, none, some, List, [], ◌∷◌, keep, take, length,
  leb, ltb, ◌==◌, if◌then◌else◌,
}
use wats.Base.Result.{Result, ok, err, ◌>>=◌, ◌>>◌, guard}
use wats.Base.Text.{codes, text_eq, text_lt}
use wats.Persistence.Validation.{ErrorCode, store_closed, invalid_record, validate_string}
use wats.Persistence.Messages.{Message, Store}

-- `ListMessagesResult`
pub record Page : Type 0 where
  pub items : List Message
  pub next_cursor : Option String

-- `ORDER BY created_at DESC, row_id DESC`, and the `WHERE` clause for the row of a cursor.
pub precedes : Message → Message → Bool
precedes a b =
    ltb b.created_at a.created_at
    || (b.created_at == a.created_at && text_lt (codes b.row_id) (codes a.row_id))

pub insert_listed : Message → List Message → List Message
insert_listed r [] = r ∷ []
insert_listed r (x ∷ rows) = if precedes r x then r ∷ x ∷ rows else x ∷ insert_listed r rows

-- All rows in their order.
pub listed : List Message → List Message
listed [] = []
listed (r ∷ rows) = insert_listed r (listed rows)

-- `WHERE row_id = ?`
pub find_row : String → List Message → Option Message
find_row id [] = none
find_row id (r ∷ rows) = if text_eq (codes r.row_id) (codes id) then some r else find_row id rows

-- `items[items.length - 1]?.rowId ?? null`
pub last_id : List Message → Option String
last_id [] = none
last_id (r ∷ []) = some r.row_id
last_id (r ∷ x ∷ rows) = last_id (x ∷ rows)

-- The page of the rows that a query gives, at most one more than the limit.
pub page_of : ℕ → List Message → Page
page_of limit rows = record {
  items = take limit rows;
  next_cursor = if ltb limit (length rows) then last_id (take limit rows) else none;
}

pub page_after : ℕ → List Message → Option Message → Page
page_after limit rows none = record { items = []; next_cursor = none }
page_after limit rows (some c) = page_of limit (take (suc limit) (listed (keep (precedes c) rows)))

pub list_rows : ℕ → List Message → Option String → Page
list_rows limit rows none = page_of limit (take (suc limit) (listed rows))
list_rows limit rows (some id) = page_after limit rows (find_row id rows)

pub validate_cursor : Option String → Result ErrorCode (Unit {0})
validate_cursor none = ok tt
validate_cursor (some id) = validate_string id

-- `listMessages`
pub list_messages : Store → ℕ → Option String → Result ErrorCode Page
list_messages s limit before = do
  guard (not s.closed) store_closed
  guard (leb 1 limit && leb limit 100) invalid_record
  validate_cursor before
  ok (list_rows limit s.messages before)
