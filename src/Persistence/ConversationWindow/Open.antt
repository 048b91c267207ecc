-- ===== src/Persistence/ConversationWindow/Open.antt =====
-- The window is open exactly if a message of the phone number is recent enough.
use Prim.Native.String.{String}
use text.Mathlib.Text.{◌==◌ as str_eq}
use wats.Base.{
  ℕ, ◌+◌, ◌≡◌, ◌≤◌, ◌∙◌, refl, ap, Bool, true, false, ◌&&◌, Option, none, some, List, [], ◌∷◌, any,
  arith, ltb,
}
use wats.Base.Result.{ok}
use wats.Persistence.Validation.{is_record_string}
use wats.Persistence.Messages.{Direction, inbound, outbound, same_direction, Message, Store}
use wats.Persistence.ConversationWindow.{
  has_phone, is_from, latest, get_latest_inbound_message_at, window_state, validate_window_ms,
  get_conversation_window_state, can_send_free_form,
}

-- The sender of an inbound message, for its direction and its `from_phone`.
abbrev pub sender : Direction → Option String → Option String
sender inbound from = from
sender outbound from = none

abbrev pub is_text : String → Option String → Bool
is_text phone none = false
is_text phone (some from) = str_eq from phone

-- The message is inbound, is from the phone number, and is less than the window old or later than
-- now.
abbrev pub is_recent : String → ℕ → ℕ → Message → Bool
is_recent phone now window m =
    is_text phone (sender m.direction m.from_phone) && ltb now (m.created_at + window)

has_phone-is_text :
    (phone : String) (from : Option String) → has_phone phone from ≡ is_text phone from
has_phone-is_text phone none = refl
has_phone-is_text phone (some from) = refl

is_from-sender :
    (phone : String) (m : Message)
    → is_from phone m ≡ is_text phone (sender m.direction m.from_phone)
unfolding is_from
is_from-sender phone m = by_direction m.direction m.from_phone
  where
    by_direction :
        (d : Direction) (from : Option String)
        → (same_direction d inbound && has_phone phone from) ≡ is_text phone (sender d from)
    by_direction inbound from = has_phone-is_text phone from
    by_direction outbound from = refl

abbrev is_open_at : ℕ → ℕ → Option ℕ → Bool
is_open_at now window none = false
is_open_at now window (some last) = ltb now (last + window)

latest-recent :
    (phone : String) (now window : ℕ) (rows : List Message)
    → is_open_at now window (latest phone rows) ≡ any (is_recent phone now window) rows
unfolding latest
latest-recent phone now window [] = refl
latest-recent phone now window (m ∷ rows) =
    ground (arith, is_from-sender phone m, latest-recent phone now window rows)

window_state-open :
    (now window : ℕ) (last : Option ℕ)
    → 1 ≤ window
    → (window_state now window last).open_now ≡ is_open_at now window last
unfolding window_state
window_state-open now window none h = refl
window_state-open now window (some last) h = ground arith

validate_window_ms-positive :
    (w : Option (Option ℕ)) (window : ℕ) → validate_window_ms w ≡ ok window → 1 ≤ window
unfolding validate_window_ms
validate_window_ms-positive w window h = ground arith

-- Take an open store, a valid phone number and a valid window. A free-form message may be sent
-- exactly if some inbound message of the store is from the number and was created less than the window
-- before now, or after it.
pub can_send_free_form-any :
    (s : Store) (phone : String) (now window : ℕ) (w : Option (Option ℕ))
    → s.closed ≡ false
    → is_record_string phone ≡ true
    → validate_window_ms w ≡ ok window
    → can_send_free_form s phone now w ≡ ok (any (is_recent phone now window) s.messages)
unfolding can_send_free_form get_conversation_window_state get_latest_inbound_message_at
can_send_free_form-any s phone now window w h q v =
    rw (h, q, v)
      (ap ok (
        window_state-open now window (latest phone s.messages)
          (validate_window_ms-positive w window v)
        ∙ latest-recent phone now window s.messages))

-- For a window of at least a millisecond and a message of the number: the remaining time is nothing
-- exactly where the window is closed, and at most the window; and where the message is not after now
-- and the window is open, the remaining time ends when the window of the message does.
pub window_state-remaining :
    (now window last : ℕ)
    → 1 ≤ window
    → (ltb 0 (window_state now window (some last)).remaining_ms
        ≡ (window_state now window (some last)).open_now)
      × ((window_state now window (some last)).remaining_ms ≤ window)
      × (last ≤ now
          → (window_state now window (some last)).open_now ≡ true
          → now + (window_state now window (some last)).remaining_ms ≡ last + window)
unfolding window_state
window_state-remaining now window last h = (ground arith, ground arith, λ p q. ground arith)
