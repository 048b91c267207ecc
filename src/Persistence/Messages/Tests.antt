-- ===== src/Persistence/Messages/Tests.antt =====
-- Runs of the message methods, and the theorem on a history.
use Prim.Native.String.{String}
use wats.Base.{◌≡◌, refl, false, some, none, List, [], ◌∷◌, ◌++◌, max, keep}
use wats.Persistence.Validation.{is_record_string}
use wats.Persistence.Messages.{
  outbound, Message, Event, Store, status_rank, is_of, clashes, find_message, insert_message,
  record_rows, append_rows, reconcile_stored_status, validate_message, append_message_status,
  validate_event, append_update, best_of, order_by_timestamp, insert_by_timestamp, advance,
  should_advance_status, rank_gt, update_status,
}
use wats.Persistence.Messages.Rank.{weight, top}
use wats.Persistence.Messages.Calls.{Call, appends, records, step, run, highest, Outcome}
use wats.Persistence.Messages.History.{run-Outcome-recorded}

abbrev message : String → Message
message status = record {
  row_id = "r1";
  wa_message_id = "w";
  direction = outbound;
  from_phone = none;
  to_phone = some "49";
  message_type = "text";
  status = status;
  graph_message_id = none;
  created_at = 10;
  updated_at = 10;
}

abbrev event : String → Event
event status = record { wa_message_id = "w"; status = status; timestamp = 20 }

abbrev empty : Store
empty = record { closed = false; messages = []; events = [] }

-- A receipt that comes before the message is recorded, and a failure after it.
abbrev early : List Call
early = appends false (event "delivered") ∷ []

abbrev late : List Call
late = appends false (event "failed") ∷ []

run-Outcome-recorded_example :
    Outcome "w"
      (message "sent")
      (max (max (weight "sent") (top (keep (is_of "w") []))) (highest "w" (early ++ late)))
      (run (early ++ (records false (message "sent") ∷ late)) empty)
unfolding find_message validate_message is_record_string status_rank clashes run step
    append_message_status validate_event append_rows append_update
run-Outcome-recorded_example =
    run-Outcome-recorded empty (message "sent") early late refl refl refl (1, refl) (tt, tt)
      (tt, tt) refl

-- A message that is recorded as read, then recorded again as sent, falls back to an event's status.
recorded_again_falls_back :
    find_message "w"
      (record_rows
        (record { closed = false; messages = message "read" ∷ []; events = event "delivered" ∷ [] })
        (message "sent")).messages
    ≡ some (record (message "delivered") { updated_at = 20 })
unfolding find_message record_rows reconcile_stored_status best_of order_by_timestamp
    insert_by_timestamp advance should_advance_status rank_gt status_rank update_status
    insert_message clashes
recorded_again_falls_back = refl
