-- ===== src/Persistence/ConversationWindow.antt =====
-- packages/persistence/src/conversationWindow.ts, and `getLatestInboundMessageAt` of sqlite.ts: whether
-- a free-form message may be sent to a phone number, by the messages that came from it.
pub mod Open
mod Tests
use Prim.Native.String.{String}
use text.Mathlib.Text.{◌==◌ as str_eq}
use wats.Base.{
  ℕ, ◌+◌, ◌-◌, Bool, true, false, ◌&&◌, Option, none, some, List, [], ◌∷◌, ltb, leb, if◌then◌else◌,
}
use wats.Base.Result.{Result, ok, err, ◌>>=◌, ◌>>◌, guard}
use wats.Persistence.Validation.{ErrorCode, invalid_record, validate_string}
use wats.Persistence.Messages.{inbound, Message, Store, same_direction, assert_open}

abbrev pub has_phone : String → Option String → Bool
has_phone phone none = false
has_phone phone (some from) = str_eq from phone

-- `WHERE direction = 'inbound' AND from_phone = ?`
pub is_from : String → Message → Bool
is_from phone m = same_direction m.direction inbound && has_phone phone m.from_phone

abbrev pub later_of : Option ℕ → ℕ → ℕ
later_of none at = at
later_of (some other) at = if ltb at other then other else at

-- `ORDER BY created_at DESC LIMIT 1`: the greatest of the times.
pub latest : String → List Message → Option ℕ
latest phone [] = none
latest phone (m ∷ rows) =
    let rest = latest phone rows in
    if is_from phone m then some (later_of rest m.created_at) else rest

pub get_latest_inbound_message_at : Store → String → Result ErrorCode (Option ℕ)
get_latest_inbound_message_at s phone = do
  assert_open s
  validate_string phone
  ok (latest phone s.messages)

-- `ConversationWindowState`
pub record WindowState : Type 0 where
  pub open_now : Bool
  pub last_inbound_at : Option ℕ
  pub expires_at : Option ℕ
  pub remaining_ms : ℕ

-- `validateWindowMs`: absent, another value, or a natural number.
pub validate_window_ms : Option (Option ℕ) → Result ErrorCode ℕ
validate_window_ms none = ok 86400000
validate_window_ms (some none) = err invalid_record
validate_window_ms (some (some n)) = if leb 1 n && leb n 604800000 then ok n else err invalid_record

-- The state for the time of the last message.
pub window_state : ℕ → ℕ → Option ℕ → WindowState
window_state now window none = record {
  open_now = false;
  last_inbound_at = none;
  expires_at = none;
  remaining_ms = 0;
}
window_state now window (some last) =
    if ltb now last
    then record {
      open_now = true;
      last_inbound_at = some last;
      expires_at = some (last + window);
      remaining_ms = window;
    }
    else if ltb (now - last) window
    then record {
      open_now = true;
      last_inbound_at = some last;
      expires_at = some (last + window);
      remaining_ms = window - (now - last);
    }
    else record {
      open_now = false;
      last_inbound_at = some last;
      expires_at = some (last + window);
      remaining_ms = 0;
    }

pub get_conversation_window_state :
    Store → String → ℕ → Option (Option ℕ) → Result ErrorCode WindowState
get_conversation_window_state s phone now window_ms = do
  validate_string phone
  window ← validate_window_ms window_ms
  last ← get_latest_inbound_message_at s phone
  ok (window_state now window last)

pub can_send_free_form : Store → String → ℕ → Option (Option ℕ) → Result ErrorCode Bool
can_send_free_form s phone now window_ms = do
  state ← get_conversation_window_state s phone now window_ms
  ok state.open_now
