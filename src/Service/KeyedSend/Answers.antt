-- ===== src/Service/KeyedSend/Answers.antt =====
-- What a keyed request is answered, by the slot of its key.
use Prim.Native.String.{String}
use text.Mathlib.Text.{◌==◌ as str_eq}
use wats.Base.{◌≡◌, refl, false, some, arith, if◌then◌else◌}
use wats.Persistence.ServiceRequests.{claim_service_request}
use wats.Persistence.ServiceRequests.Slots.{
  Slot, free, reserved, finished, slot, slot_claim, IsReady, Changes, claim_service_request-Changes,
}
use wats.Service.KeyedSend.{
  atomic, State, claim_outcome, claim_result, claim_keyed_send, raw_key, safe_idempotency_key,
  built, Request, Config, namespaced_idempotency_key, error_response, replayed, Decision, answers,
  sends, after_claim, begin_keyed, begin_built, begin_incoming, begin,
}
use wats.Base.Text.{Text}

module _ {P : Type 0} (c : Config) where
  -- A request whose payload is built and hashed and whose idempotency key is accepted, with a store
  -- that has claims.
  pub record IsKeyed (r : Request P) (payload : P) (key hash : String) : Type 0 where
    pub raw : Text
    pub stores : c.persistence ≡ atomic
    pub accepts : safe_idempotency_key r.idempotency_key ≡ raw_key raw
    pub builds : r.incoming ≡ built payload (some hash)
    pub names :
        namespaced_idempotency_key c.digest c.phone_number_id c.waba_id r.operation raw ≡ key

  -- The answer to a payload whose key has a slot.
  abbrev pub slot_decision : P → String → String → Slot → Decision P
  slot_decision payload key hash free = sends payload (some (key, hash))
  slot_decision payload key hash (reserved h) =
      if str_eq h hash
      then answers (error_response 409 "idempotency_pending")
      else answers (error_response 409 "idempotency_conflict")
  slot_decision payload key hash (finished h json) =
      if str_eq h hash
      then if str_eq json ""
        then answers (error_response 503 "persistence_unavailable")
        else answers (replayed json)
      else answers (error_response 409 "idempotency_conflict")

  slot_decision-slot_claim :
      (payload : P) (key hash : String) (x : Slot)
      → after_claim payload key hash (claim_outcome (slot_claim hash x).1)
        ≡ slot_decision payload key hash x
  unfolding after_claim claim_outcome slot_claim
  slot_decision-slot_claim payload key hash free = refl
  slot_decision-slot_claim payload key hash (reserved h) = ground arith
  slot_decision-slot_claim payload key hash (finished h json) = ground arith

  begin-claim_result :
      (s : State) (r : Request P) (payload : P) (key hash : String)
      → IsKeyed r payload key hash
      → begin c false s r ≡ (
        record s {
          requests =
              (claim_result s.requests (claim_service_request false s.requests key hash r.at)).0;
        },
        after_claim payload key hash
            (claim_result s.requests (claim_service_request false s.requests key hash r.at)).1,
      )
  unfolding begin begin_incoming begin_built begin_keyed claim_keyed_send
  begin-claim_result s r payload key hash k = rw (k.builds, k.accepts, k.stores, k.names) refl

  -- A keyed request on an open store whose completed rows have their response, with a valid key and
  -- hash and no failing statement: if the key is free it is sent and reserves the key; under a
  -- reservation of the same payload it is answered 409 pending, and if the key is finished under the
  -- same payload it is answered with the stored response (503 if that is empty); another payload is
  -- answered 409 conflict. No other slot changes.
  pub begin-slot_decision :
      (s : State) (r : Request P) (payload : P) (key hash : String)
      → IsKeyed r payload key hash
      → IsReady s.requests key hash
      → ((begin c false s r).1 ≡ slot_decision payload key hash (slot key s.requests))
        × Changes s.requests (begin c false s r).0.requests key (λ x. (slot_claim hash x).0)
  unfolding claim_result
  begin-slot_decision s r payload key hash k v =
      let (s', answer, change) = claim_service_request-Changes s.requests key hash r.at v in
      rw (begin-claim_result s r payload key hash k, answer)
        (slot_decision-slot_claim payload key hash (slot key s.requests), change)
