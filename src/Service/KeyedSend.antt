-- ===== src/Service/KeyedSend.antt =====
-- packages/service/src/serviceRequests.ts and the handlers of messages in packages/service/src/index.ts
-- (`handleTextMessage`, `handleGenericMessage`): a send with an idempotency key claims the key in the
-- store, is sent to the Graph API, and completes the claim. A handler is split at the call of the
-- Graph API: `begin` runs up to it, `finish` from its result on. Telemetry and logs are left out.
pub mod Steps
pub mod Once
pub mod Answers
pub mod Replay
mod Tests
use Prim.Native.String.{String}
use text.Mathlib.Text.{◌==◌ as str_eq}
use wats.Base.{
  ℕ, Bool, true, false, not, ◌||◌, Option, none, some, List, [], ◌∷◌, length, ltb, if◌then◌else◌,
}
use wats.Base.Result.{Result, ok, err}
use wats.Base.Text.{Text}
use wats.Graph.RetryAfter.{is_space}
use wats.Persistence.Validation.{ErrorCode, is_blank, has_control_chars, is_control}
use wats.Persistence.ServiceRequests as Requests
use wats.Persistence.ServiceRequests.{
  ClaimResult, granted, pending, conflict, response, claim_service_request,
  complete_service_request,
}
use wats.Persistence.Messages as Messages
use wats.Persistence.Messages.{outbound, record_message, append_message_status}
use wats.Service.JsonText.{stringify_strings}

-- What the service is configured with: no store, a store without the methods of claims
-- (`isAtomicClaimStore`), or one with them.
pub data Persistence : Type 0 where
  no_store legacy atomic : Persistence

-- The tables that a handler uses.
pub record State : Type 0 where
  pub requests : Requests.Store
  pub messages : Messages.Store

-- `KeyedClaimOutcome`, or a throw of the store.
pub data KeyedClaim : Type 0 where
  claimed pending_claim conflicting_claim not_atomic throws : KeyedClaim
  replay : String → KeyedClaim

-- The result of `claimServiceRequest`, whose response must not be empty.
pub claim_outcome : ClaimResult → KeyedClaim
claim_outcome granted = claimed
claim_outcome pending = pending_claim
claim_outcome conflict = conflicting_claim
claim_outcome (response json) = if str_eq json "" then throws else replay json

pub claim_result :
    Requests.Store → Result ErrorCode (Requests.Store × ClaimResult) → Requests.Store × KeyedClaim
claim_result s (ok (s', answer)) = (s', claim_outcome answer)
claim_result s (err e) = (s, throws)

-- `claimKeyedSend`
pub claim_keyed_send :
    Persistence → Bool → Requests.Store → String → String → ℕ → Requests.Store × KeyedClaim
claim_keyed_send no_store fault s key hash at = (s, claimed)
claim_keyed_send legacy fault s key hash at = (s, not_atomic)
claim_keyed_send atomic fault s key hash at =
    claim_result s (claim_service_request fault s key hash at)

pub complete_result : Requests.Store → Result ErrorCode Requests.Store → Requests.Store × Bool
complete_result s (ok s') = (s', true)
complete_result s (err e) = (s, false)

-- `completeKeyedSend`
pub complete_keyed_send :
    Persistence
    → (String → Bool)
    → Bool
    → Requests.Store
    → String
    → String
    → String
    → ℕ
    → Requests.Store × Bool
complete_keyed_send no_store is_json fault s key hash json at = (s, true)
complete_keyed_send legacy is_json fault s key hash json at = (s, false)
complete_keyed_send atomic is_json fault s key hash json at =
    complete_result s (complete_service_request is_json fault s key hash json at)

-- `safeIdempotencyKey`
pub data KeyHeader : Type 0 where
  no_key invalid_key : KeyHeader
  raw_key : Text → KeyHeader

pub safe_idempotency_key : Option Text → KeyHeader
unfolding is_blank has_control_chars is_control is_space
safe_idempotency_key none = no_key
safe_idempotency_key (some raw) =
    if is_blank raw || ltb 256 (length raw) || has_control_chars raw
    then invalid_key
    else raw_key raw

-- A request of either handler: the outgoing payload that its body is built into, of type `P`, and
-- the hash of the payload's canonical JSON, which is `none` if it is nested too deep.
pub data Incoming (P : Type 0) : Type 0 where
  malformed_json malformed_body : Incoming P
  built : P → Option String → Incoming P

pub record Request (P : Type 0) : Type 0 where
  pub operation : Text
  pub incoming : Incoming P
  pub idempotency_key : Option Text
  -- The time of the claim.
  pub at : ℕ

-- The profile, and the digest of `sha256HexPrefixed`.
pub record Config : Type 0 where
  pub phone_number_id : Text
  pub waba_id : Text
  pub persistence : Persistence
  pub digest : Text → String

-- `namespacedIdempotencyKey`
pub namespaced_idempotency_key : (Text → String) → Text → Text → Text → Text → String
namespaced_idempotency_key digest phone_number_id waba_id operation raw =
    digest (stringify_strings (phone_number_id ∷ waba_id ∷ operation ∷ raw ∷ []))

-- The JSON text of a result of the Graph API (`responseToJsonText`): none, as its writing throws, none, as
-- there is nothing to write, or a text.
pub data ResultText : Type 0 where
  unprintable nothing : ResultText
  json_text : String → ResultText

-- An error with its code, the response that is stored under the key, the result of the Graph API
-- with the mark of a degraded store, or the failure of the Graph API.
pub data Response : Type 0 where
  error_response : ℕ → String → Response
  replayed : String → Response
  result : ResultText → Bool → Response
  graph_failure : Response

-- The key and the hash of a claim.
abbrev pub Claim : Type 0
Claim = Option (String × String)

-- What a handler does at first: it answers, or it sends a payload.
pub data Decision (P : Type 0) : Type 0 where
  answers : Response → Decision P
  sends : P → Claim → Decision P

abbrev pub has_store : Persistence → Bool
has_store no_store = false
has_store legacy = true
has_store atomic = true

module _ {P : Type 0} where
  pub after_claim : P → String → String → KeyedClaim → Decision P
  after_claim payload key hash claimed = sends payload (some (key, hash))
  after_claim payload key hash throws = answers (error_response 503 "persistence_unavailable")
  after_claim payload key hash not_atomic = answers (error_response 503 "persistence_not_atomic")
  after_claim payload key hash pending_claim = answers (error_response 409 "idempotency_pending")
  after_claim payload key hash conflicting_claim =
      answers (error_response 409 "idempotency_conflict")
  after_claim payload key hash (replay json) = answers (replayed json)

  -- With a key and a store.
  pub begin_keyed : Config → Bool → State → P → Option String → String → ℕ → State × Decision P
  begin_keyed c fault s payload none key at =
      (s, answers (error_response 400 "payload_depth_exceeded"))
  begin_keyed c fault s payload (some hash) key at =
      let (requests, outcome) = claim_keyed_send c.persistence fault s.requests key hash at in
      (record s { requests = requests }, after_claim payload key hash outcome)

  pub begin_built :
      Config → Bool → State → Request P → P → Option String → KeyHeader → State × Decision P
  begin_built c fault s r payload hash invalid_key =
      (s, answers (error_response 400 "invalid_idempotency_key"))
  begin_built c fault s r payload hash no_key = (s, sends payload none)
  begin_built c fault s r payload hash (raw_key raw) =
      if has_store c.persistence
      then begin_keyed c fault s payload hash
          (namespaced_idempotency_key c.digest c.phone_number_id c.waba_id r.operation raw) r.at
      else (s, sends payload none)

  pub begin_incoming : Config → Bool → State → Request P → Incoming P → State × Decision P
  begin_incoming c fault s r malformed_json = (s, answers (error_response 400 "malformed_json"))
  begin_incoming c fault s r malformed_body = (s, answers (error_response 400 "malformed_body"))
  begin_incoming c fault s r (built payload hash) =
      begin_built c fault s r payload hash (safe_idempotency_key r.idempotency_key)

  -- A handler up to the call of the Graph API; `fault` says that the claim's statement fails.
  pub begin : Config → Bool → State → Request P → State × Decision P
  begin c fault s r = begin_incoming c fault s r r.incoming

-- What the Graph API gives: an error, or a result, with its JSON text and the id of its first message
-- if there is one (`extractGraphMessageId`).
pub data GraphResult : Type 0 where
  fails : GraphResult
  sent : ResultText → Option String → GraphResult

-- What the rest of a handler is given: whether the statements of the completion, of the message and
-- of its status fail, the recipient and the type for the projection, a fresh row id, and the time.
pub record Rest : Type 0 where
  pub completion_fault : Bool
  pub message_fault : Bool
  pub status_fault : Bool
  pub to_phone : Option String
  pub message_type : String
  pub row_id : String
  pub now : ℕ

abbrev after_call : Messages.Store → Result ErrorCode Messages.Store → Messages.Store
after_call s (ok s') = s'
after_call s (err e) = s

-- `recordOutboundProjection`
pub record_outbound_projection :
    Persistence → Rest → Option String → Messages.Store → Messages.Store
record_outbound_projection no_store rest id s = s
record_outbound_projection kind rest none s = s
record_outbound_projection kind rest (some id) s =
    let message : Messages.Message = record {
      row_id = rest.row_id;
      wa_message_id = id;
      direction = outbound;
      from_phone = none;
      to_phone = rest.to_phone;
      message_type = rest.message_type;
      status = "sent";
      graph_message_id = some id;
      created_at = rest.now;
      updated_at = rest.now;
    } in
    let event : Messages.Event = record {
      wa_message_id = id;
      status = "sent";
      timestamp = rest.now;
    } in
    let recorded = after_call s (record_message rest.message_fault s message) in
    after_call recorded (append_message_status rest.status_fault recorded event)

-- The completion, with whether it failed.
pub complete_claim :
    Config → (String → Bool) → Rest → Claim → ResultText → Requests.Store → Requests.Store × Bool
complete_claim c is_json rest none json s = (s, false)
complete_claim c is_json rest (some (key, hash)) unprintable s = (s, false)
-- What is no text is refused by a store.
complete_claim c is_json rest (some (key, hash)) nothing s = (s, has_store c.persistence)
complete_claim c is_json rest (some (key, hash)) (json_text json) s =
    let (s', completed) =
      complete_keyed_send c.persistence is_json rest.completion_fault s key hash json rest.now in
    (s', not completed)

-- A handler from the result of the Graph API on.
pub finish : Config → (String → Bool) → Rest → State → Claim → GraphResult → State × Response
finish c is_json rest s claim fails = (s, graph_failure)
finish c is_json rest s claim (sent json id) =
    let (requests, degraded) = complete_claim c is_json rest claim json s.requests in
    (
      record {
        requests = requests;
        messages = record_outbound_projection c.persistence rest id s.messages;
      },
      result json degraded,
    )
