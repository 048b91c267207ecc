-- ===== src/Persistence/Messages.antt =====
-- packages/persistence/src/sqlite.ts, the tables `wats_messages` and `wats_message_status_events`:
-- the projection of messages and the status events of webhooks. Each method runs as one step. Rows
-- stand in the order of their insertion, in which an index lists the rows of one key. `fault` says
-- that the database engine fails a statement.
pub mod Rank
pub mod Order
pub mod Calls
pub mod History
mod Tests
use Prim.Native.String.{String}
use text.Mathlib.Text.{◌==◌ as str_eq}
use wats.Base.{
  ℕ, Bool, true, false, not, ◌&&◌, ◌||◌, Option, none, some, List, [], ◌∷◌, ◌++◌, any, keep, ltb,
  leb, ◌==◌, if◌then◌else◌,
}
use wats.Base.Result.{Result, ok, err, ◌>>=◌, ◌>>◌, guard}
use wats.Persistence.Validation.{ErrorCode, outbox_failed, store_closed, validate_string}

pub data Direction : Type 0 where
  inbound outbound : Direction

pub record Message : Type 0 where
  pub row_id : String
  pub wa_message_id : String
  pub direction : Direction
  pub from_phone : Option String
  pub to_phone : Option String
  pub message_type : String
  pub status : String
  pub graph_message_id : Option String
  pub created_at : ℕ
  pub updated_at : ℕ

pub record Event : Type 0 where
  pub wa_message_id : String
  pub status : String
  pub timestamp : ℕ

pub record Store : Type 0 where
  pub closed : Bool
  pub messages : List Message
  pub events : List Event

-- The names that an object literal inherits: what is found under them compares as no number does.
abbrev inherited_names : List String
inherited_names =
    "constructor" ∷ "toString" ∷ "toLocaleString" ∷ "valueOf" ∷ "hasOwnProperty" ∷ "isPrototypeOf"
    ∷ "propertyIsEnumerable" ∷ "__proto__" ∷ "__defineGetter__" ∷ "__defineSetter__"
    ∷ "__lookupGetter__" ∷ "__lookupSetter__" ∷ []

pub is_inherited : String → Bool
is_inherited status = any (str_eq status) inherited_names

-- `statusRank`; `none` is not a number.
pub status_rank : String → Option ℕ
status_rank status =
    if str_eq status "pending"
    then some 0
    else if str_eq status "sent"
    then some 1
    else if str_eq status "delivered"
    then some 2
    else if str_eq status "read"
    then some 3
    else if str_eq status "failed"
    then some 1
    else if is_inherited status
    then none
    else some 0

pub rank_gt : Option ℕ → Option ℕ → Bool
rank_gt none b = false
rank_gt (some a) none = false
rank_gt (some a) (some b) = ltb b a

pub rank_le : Option ℕ → ℕ → Bool
rank_le none b = false
rank_le (some a) b = leb a b

-- `failedMayReplace`
pub failed_may_replace : String → Bool
failed_may_replace current = rank_le (status_rank current) 1

pub should_advance_status : String → String → Bool
should_advance_status new current =
    if str_eq new "failed"
    then failed_may_replace current
    else rank_gt (status_rank new) (status_rank current)

abbrev pub same_direction : Direction → Direction → Bool
same_direction inbound inbound = true
same_direction outbound outbound = true
same_direction inbound outbound = false
same_direction outbound inbound = false

-- The primary key `row_id`, and the unique index on `(direction, wa_message_id)`.
pub clashes : Message → Message → Bool
clashes m old =
    str_eq old.row_id m.row_id
    || (same_direction old.direction m.direction && str_eq old.wa_message_id m.wa_message_id)

-- `INSERT OR IGNORE INTO wats_messages`
pub insert_message : Message → List Message → List Message
insert_message m rows = if any (clashes m) rows then rows else rows ++ (m ∷ [])

pub same_event : Event → Event → Bool
same_event e old =
    str_eq old.wa_message_id e.wa_message_id
    && (str_eq old.status e.status && old.timestamp == e.timestamp)

-- `INSERT OR IGNORE INTO wats_message_status_events`
pub insert_event : Event → List Event → List Event
insert_event e rows = if any (same_event e) rows then rows else rows ++ (e ∷ [])

-- `SELECT … FROM wats_messages WHERE wa_message_id = ?`, the first row
pub find_message : String → List Message → Option Message
find_message id [] = none
find_message id (m ∷ rows) = if str_eq m.wa_message_id id then some m else find_message id rows

-- `UPDATE wats_messages SET status = ?, updated_at = ? WHERE wa_message_id = ?`
pub update_status : String → String → ℕ → List Message → List Message
update_status id status at [] = []
update_status id status at (m ∷ rows) =
    (if str_eq m.wa_message_id id then record m { status = status; updated_at = at } else m)
    ∷ update_status id status at rows

-- `ORDER BY timestamp ASC`
pub insert_by_timestamp : Event → List Event → List Event
insert_by_timestamp e [] = e ∷ []
insert_by_timestamp e (x ∷ xs) =
    if leb e.timestamp x.timestamp then e ∷ x ∷ xs else x ∷ insert_by_timestamp e xs

pub order_by_timestamp : List Event → List Event
order_by_timestamp [] = []
order_by_timestamp (e ∷ es) = insert_by_timestamp e (order_by_timestamp es)

abbrev pub is_of : String → Event → Bool
is_of id e = str_eq e.wa_message_id id

-- `bestStatus` and `bestUpdatedAt`
pub record Best : Type 0 where
  pub status : String
  pub updated_at : ℕ

abbrev pub later : ℕ → ℕ → ℕ
later a b = if ltb b a then a else b

pub advance : Best → Event → Best
advance best e =
    if should_advance_status e.status best.status
    then record { status = e.status; updated_at = later e.timestamp best.updated_at }
    else best

pub best_of : Best → List Event → Best
best_of best [] = best
best_of best (e ∷ es) = best_of (advance best e) es

abbrev pub same_best : Best → Best → Bool
same_best a b = str_eq a.status b.status && a.updated_at == b.updated_at

-- `#reconcileStoredStatus`
pub reconcile_stored_status : String → String → ℕ → List Event → List Message → List Message
reconcile_stored_status id status at events rows =
    let recorded : Best = record { status = status; updated_at = at } in
    let best = best_of recorded (order_by_timestamp (keep (is_of id) events)) in
    if same_best best recorded then rows else update_status id best.status best.updated_at rows

abbrev pub assert_open : Store → Result ErrorCode (Unit {0})
assert_open s = guard (not s.closed) store_closed

-- `validateOptionalRecordString`
abbrev pub validate_optional : Option String → Result ErrorCode (Unit {0})
validate_optional none = ok tt
validate_optional (some value) = validate_string value

-- `validateMessageRecord`
pub validate_message : Message → Result ErrorCode (Unit {0})
validate_message m = do
  validate_string m.row_id
  validate_string m.wa_message_id
  validate_optional m.from_phone
  validate_optional m.to_phone
  validate_string m.message_type
  validate_string m.status
  validate_optional m.graph_message_id

pub record_rows : Store → Message → Store
record_rows s m = record s {
  messages =
      reconcile_stored_status m.wa_message_id m.status m.updated_at s.events
        (insert_message m s.messages);
}

pub record_message : Bool → Store → Message → Result ErrorCode Store
record_message fault s m = do
  assert_open s
  validate_message m
  guard (not fault) outbox_failed
  ok (record_rows s m)

pub validate_event : Event → Result ErrorCode (Unit {0})
validate_event e = do validate_string e.wa_message_id; validate_string e.status

-- The `UPDATE` of `appendMessageStatus`, for the row that it reads.
pub append_update : Event → Option Message → List Message → List Message
append_update e none rows = rows
append_update e (some m) rows =
    if should_advance_status e.status m.status
    then update_status e.wa_message_id e.status (later e.timestamp m.updated_at) rows
    else rows

pub append_rows : Store → Event → Store
append_rows s e = record s {
  events = insert_event e s.events;
  messages = append_update e (find_message e.wa_message_id s.messages) s.messages;
}

pub append_message_status : Bool → Store → Event → Result ErrorCode Store
append_message_status fault s e = do
  assert_open s
  validate_event e
  guard (not fault) outbox_failed
  ok (append_rows s e)

pub get_message : Store → String → Result ErrorCode (Option Message)
get_message s id = do assert_open s; validate_string id; ok (find_message id s.messages)
