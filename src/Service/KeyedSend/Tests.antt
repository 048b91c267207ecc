-- ===== src/Service/KeyedSend/Tests.antt =====
-- Two clients that send with one key, and the replay of the recorded response.
use Prim.Native.String.{String}
use wats.Base.{ℕ, ◌≤◌, ◌≡◌, ◌≢◌, refl, Bool, true, false, none, some, List, [], ◌∷◌, arith}
use wats.Base.Text.{codes}
use wats.Persistence.Validation.{is_record_string}
use wats.Persistence.Table.{find}
use wats.Persistence.ServiceRequests as Requests
use wats.Persistence.ServiceRequests.Slots.{
  free, reserved, slot, slot_claim, IsWhole, IsReady, Changes,
}
use wats.Persistence.ServiceRequests.Completion.{IsResponse}
use wats.Service.KeyedSend.{
  atomic, State, safe_idempotency_key, built, Request, Config, namespaced_idempotency_key,
  json_text, result, replayed, answers, begin, sent, Rest, finish,
}
use wats.Service.KeyedSend.Once.{Event, arrives, returns, sends_in, sends_in-at-most-once}
use wats.Service.KeyedSend.Answers.{IsKeyed, slot_decision, begin-slot_decision}
use wats.Service.KeyedSend.Replay.{after_events, finish-finished, finish-begin}

abbrev config : Config
config = record {
  phone_number_id = codes "1";
  waba_id = codes "2";
  persistence = atomic;
  digest = λ text. "k";
}

abbrev request : Request ℕ
request = record {
  operation = codes "messages";
  incoming = built 7 (some "h");
  idempotency_key = some (codes "once");
  at = 1;
}

abbrev rest : Rest
rest = record {
  completion_fault = false;
  message_fault = false;
  status_fault = false;
  to_phone = none;
  message_type = "text";
  row_id = "row";
  now = 5;
}

abbrev held_row : Requests.Row
held_row = record {
  idempotency_key = "k";
  request_hash = "h";
  response_json = none;
  created_at = 1;
  status = Requests.claimed;
}

abbrev with_rows : List Requests.Row → State
with_rows rows = record {
  requests = record { closed = false; rows = rows };
  messages = record { closed = false; messages = []; events = [] };
}

abbrev any_json : String → Bool
any_json s = true

abbrev events : List (Event ℕ)
events =
    arrives false request
    ∷ arrives true request
    ∷ arrives false request
    ∷ returns rest (some ("k", "h")) (sent (json_text "{}") none)
    ∷ []

empty-IsWhole : IsWhole (with_rows []).requests
unfolding find
empty-IsWhole k = refl

held-IsReady : IsReady (with_rows (held_row ∷ [])).requests "k" "h"
unfolding find is_record_string
held-IsReady = record {
  is_open = refl;
  key_valid = refl;
  hash_valid = refl;
  whole = λ k. ground arith;
}

request-IsKeyed : IsKeyed config request 7 "k" "h"
unfolding safe_idempotency_key namespaced_idempotency_key
request-IsKeyed = record {
  raw = codes "once";
  stores = refl;
  accepts = refl;
  builds = refl;
  names = refl;
}

sends_in-at-most-once_example :
    (sends_in config any_json "k" (with_rows []) events ≤ 1)
    × (slot "k" (with_rows []).requests ≢ free
        → sends_in config any_json "k" (with_rows []) events ≡ 0)
sends_in-at-most-once_example =
    sends_in-at-most-once config any_json "k" (with_rows []) events empty-IsWhole

begin-slot_decision_example :
    ((begin config false (with_rows (held_row ∷ [])) request).1
      ≡ slot_decision config 7 "k" "h" (slot "k" (with_rows (held_row ∷ [])).requests))
    × Changes
        (with_rows (held_row ∷ [])).requests
        (begin config false (with_rows (held_row ∷ [])) request).0.requests
        "k"
        (λ x. (slot_claim "h" x).0)
begin-slot_decision_example =
    begin-slot_decision config (with_rows (held_row ∷ [])) request 7 "k" "h" request-IsKeyed
      held-IsReady

held_slot : slot "k" (with_rows (held_row ∷ [])).requests ≡ reserved "h"
unfolding slot find
held_slot = refl

json-IsResponse : IsResponse any_json "{}"
unfolding is_record_string
json-IsResponse = record { valid = refl; parses = refl }

still_open :
    (finish config any_json rest
      (with_rows (held_row ∷ []))
      (some ("k", "h"))
      (sent (json_text "{}") none)).0.requests.closed
    ≡ false
still_open =
    (finish-finished config any_json (with_rows (held_row ∷ [])) rest "k" "h" "{}" none refl
      held-IsReady json-IsResponse held_slot refl).3

finish-begin_example :
    ((finish config any_json rest
        (with_rows (held_row ∷ []))
        (some ("k", "h"))
        (sent (json_text "{}") none)).1
      ≡ result (json_text "{}") false)
    × ((begin config false
          (after_events config any_json {P = ℕ}
            (finish config any_json rest
              (with_rows (held_row ∷ []))
              (some ("k", "h"))
              (sent (json_text "{}") none)).0
            [])
          request).1
        ≡ answers (replayed "{}"))
unfolding after_events
finish-begin_example =
    finish-begin config any_json (with_rows (held_row ∷ [])) rest request 7 "k" "h" "{}" none []
      request-IsKeyed held-IsReady json-IsResponse held_slot refl still_open
