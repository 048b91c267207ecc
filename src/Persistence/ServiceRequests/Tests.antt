-- ===== src/Persistence/ServiceRequests/Tests.antt =====
-- Runs of the service request methods, and the theorems on a history.
use Prim.Native.String.{String}
use wats.Base.{◌≤◌, ◌≡◌, ◌≢◌, refl, Bool, true, false, some, List, [], ◌∷◌, arith}
use wats.Base.Result.{ok}
use wats.Persistence.Validation.{is_record_string}
use wats.Persistence.Table.{find, append, modify}
use wats.Persistence.ServiceRequests.{
  Store, Row, completed, insert_or_ignore, claim_answer, claim_service_request,
  complete_service_request, complete_row,
}
use wats.Persistence.ServiceRequests.Slots.{
  free, finished, slot, slot_claim, slot_complete, IsWhole, IsReady, Changes,
  claim_service_request-Changes,
}
use wats.Persistence.ServiceRequests.Completion.{IsResponse, complete_service_request-Changes}
use wats.Persistence.ServiceRequests.Calls.{Call, claims, completes, run, step}
use wats.Persistence.ServiceRequests.History.{run-at-most-once, run-finished}

abbrev empty : Store
empty = record { closed = false; rows = [] }

abbrev done_row : Row
done_row = record {
  idempotency_key = "k";
  request_hash = "h";
  response_json = some "{}";
  created_at = 5;
  status = completed;
}

abbrev one_done : Store
one_done = record { closed = false; rows = done_row ∷ [] }

abbrev any_json : String → Bool
any_json s = true

-- Two workers claim the same key, and one completes it.
abbrev calls : List Call
calls =
    claims false "k" "h" 1
    ∷ claims false "k" "h" 2
    ∷ completes false "k" "h" "{}" 3
    ∷ claims false "k" "h" 4
    ∷ []

claim_twice : (run any_json "k" empty calls).1 ≡ 1
unfolding run step claim_service_request insert_or_ignore claim_answer complete_service_request
    complete_row find append modify is_record_string
claim_twice = refl

empty-IsWhole : IsWhole empty
unfolding find
empty-IsWhole k = refl

one_done-IsWhole : IsWhole one_done
unfolding find
one_done-IsWhole k = ground arith

run-at-most-once_example :
    ((run any_json "k" empty calls).1 ≤ 1)
    × (slot "k" empty ≢ free → (run any_json "k" empty calls).1 ≡ 0)
run-at-most-once_example = run-at-most-once any_json "k" empty calls empty-IsWhole

run-finished_example : slot "k" (run any_json "k" one_done calls).0 ≡ finished "h" "{}"
unfolding slot find
run-finished_example = run-finished any_json "k" "h" "{}" one_done calls one_done-IsWhole refl

empty-IsReady : IsReady empty "k" "h"
unfolding is_record_string
empty-IsReady = record {
  is_open = refl;
  key_valid = refl;
  hash_valid = refl;
  whole = empty-IsWhole;
}

one_done-IsReady : IsReady one_done "k" "h"
unfolding is_record_string
one_done-IsReady = record {
  is_open = refl;
  key_valid = refl;
  hash_valid = refl;
  whole = one_done-IsWhole;
}

json-IsResponse : IsResponse any_json "{}"
unfolding is_record_string
json-IsResponse = record { valid = refl; parses = refl }

claim_service_request-Changes_example :
    (s' : Store) × (claim_service_request false empty "k" "h" 1
      ≡ ok (s', (slot_claim "h" (slot "k" empty)).1))
    × Changes empty s' "k" (λ x. (slot_claim "h" x).0)
claim_service_request-Changes_example = claim_service_request-Changes empty "k" "h" 1 empty-IsReady

complete_service_request-Changes_example :
    (s' : Store) × (complete_service_request any_json false one_done "k" "h" "{}" 9 ≡ ok s')
    × Changes one_done s' "k" (λ y. finished "h" "{}")
unfolding slot find slot_complete
complete_service_request-Changes_example =
    complete_service_request-Changes any_json one_done "k" "h" "{}" 9 one_done-IsReady
      json-IsResponse (finished "h" "{}") refl
