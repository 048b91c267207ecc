-- ===== src/Persistence/MessageList/Tests.antt =====
-- Three messages in pages of two.
use wats.Base.{◌≡◌, refl, arith, false, none, some, [], ◌∷◌}
use wats.Base.Result.{ok}
use wats.Persistence.Validation.{is_record_string}
use wats.Persistence.Messages.{Message, Store, inbound}
use wats.Persistence.MessageList.{
  list_messages, list_rows, page_of, page_after, listed, insert_listed, precedes, find_row, last_id,
  validate_cursor,
}
use wats.Persistence.MessageList.Pages.{follow, follow-listed}

abbrev first : Message
first = record {
  row_id = "a";
  wa_message_id = "w";
  direction = inbound;
  from_phone = some "49";
  to_phone = none;
  message_type = "text";
  status = "received";
  graph_message_id = none;
  created_at = 5;
  updated_at = 5;
}

abbrev second : Message
second = record first { row_id = "b" }

abbrev third : Message
third = record first { row_id = "c"; created_at = 4 }

abbrev store : Store
store = record { closed = false; messages = first ∷ third ∷ second ∷ []; events = [] }

follow-listed_example : follow 4 store 2 none ≡ ok (listed store.messages)
unfolding is_record_string
follow-listed_example =
    follow-listed store 2 4 refl (omega arith) (omega arith)
      ((refl, (refl, tt)), ((refl, tt), (tt, tt))) (refl, (refl, (refl, tt))) (omega arith)

latest_first : listed store.messages ≡ second ∷ first ∷ third ∷ []
unfolding listed insert_listed precedes
latest_first = refl

second_page :
    list_messages store 2 (some "a") ≡ ok (record { items = third ∷ []; next_cursor = none })
unfolding list_messages list_rows page_of page_after listed insert_listed precedes find_row last_id
    validate_cursor is_record_string
second_page = refl

unknown_cursor : list_messages store 2 (some "x") ≡ ok (record { items = []; next_cursor = none })
unfolding list_messages list_rows page_of page_after listed insert_listed precedes find_row last_id
    validate_cursor is_record_string
unknown_cursor = refl
