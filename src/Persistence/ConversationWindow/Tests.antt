-- ===== src/Persistence/ConversationWindow/Tests.antt =====
-- A number that wrote less than a day before now, and the theorems on it.
use wats.Base.{◌≡◌, refl, false, some, none, [], ◌∷◌, any}
use wats.Base.Result.{ok}
use wats.Persistence.Validation.{is_record_string}
use wats.Persistence.Messages.{inbound, Message, Store}
use wats.Persistence.ConversationWindow.{can_send_free_form, validate_window_ms}
use wats.Persistence.ConversationWindow.Open.{is_recent, can_send_free_form-any}

abbrev message : Message
message = record {
  row_id = "r";
  wa_message_id = "w";
  direction = inbound;
  from_phone = some "49";
  to_phone = none;
  message_type = "text";
  status = "received";
  graph_message_id = none;
  created_at = 1000;
  updated_at = 1000;
}

abbrev store : Store
store = record { closed = false; messages = message ∷ []; events = [] }

can_send_free_form-any_example :
    can_send_free_form store "49" 5000 none ≡ ok (any (is_recent "49" 5000 86400000) (message ∷ []))
unfolding is_record_string validate_window_ms
can_send_free_form-any_example = can_send_free_form-any store "49" 5000 86400000 none refl refl refl
