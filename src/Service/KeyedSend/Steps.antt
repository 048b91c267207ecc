-- ===== src/Service/KeyedSend/Steps.antt =====
-- What each part of a handler does to the slots of the store.
use Prim.Native.String.{String}
use text.Mathlib.Text.{◌==◌ as str_eq}
use wats.Base.{
  ℕ, ◌≡◌, refl, Bool-cases, inl, inr, Bool, true, false, ◌&&◌, Option, none, some, arith,
}
use wats.Base.Result.{Result, ok, err}
use wats.Persistence.Validation.{ErrorCode}
use wats.Persistence.ServiceRequests as Requests
use wats.Persistence.ServiceRequests.{
  ClaimResult, granted, pending, conflict, response, claim_service_request,
  complete_service_request,
}
use wats.Persistence.ServiceRequests.Slots.{IsWhole}
use wats.Persistence.ServiceRequests.Calls as Calls
use wats.Persistence.ServiceRequests.Calls.{
  Call, claims, completes, step, open_slots, wins_of, Progress, Progress-same,
}
use wats.Persistence.ServiceRequests.Progress.{step-Progress}
use wats.Service.KeyedSend.{
  Persistence, has_store, no_store, legacy, atomic, State, claim_outcome, claim_result,
  claim_keyed_send, complete_result, complete_keyed_send, no_key, invalid_key, raw_key,
  safe_idempotency_key, Incoming, malformed_json, malformed_body, built, Request, Config, Claim,
  KeyHeader, namespaced_idempotency_key, Decision, answers, sends, after_claim, begin_keyed,
  begin_built, begin_incoming, begin, ResultText, unprintable, nothing, json_text, GraphResult,
  fails, sent, Rest, complete_claim, finish,
}

-- Whether a payload is sent under the key `k`.
abbrev pub sends_key : {P : Type 0} → String → Decision P → Bool
sends_key k (answers r) = false
sends_key k (sends payload none) = false
sends_key k (sends payload (some (key, hash))) = str_eq key k

claim_result-after_claim :
    (s : Requests.Store) (r : Result ErrorCode (Requests.Store × ClaimResult))
    → (claim_result s r).0 ≡ (Calls.after_claim s r).0
unfolding claim_result
claim_result-after_claim s (ok (s', answer)) = refl
claim_result-after_claim s (err e) = refl

module _ {P : Type 0} (k : String) where
  sends_key-claim_outcome :
      (payload : P) (key hash : String) (answer : ClaimResult)
      → sends_key k (after_claim payload key hash (claim_outcome answer))
        ≡ (str_eq key k && Calls.is_granted answer)
  unfolding after_claim claim_outcome
  sends_key-claim_outcome payload key hash answer = ground arith

  sends_key-after_claim :
      (payload : P) (key hash : String) (s : Requests.Store)
      (r : Result ErrorCode (Requests.Store × ClaimResult))
      → sends_key k (after_claim payload key hash (claim_result s r).1)
        ≡ (str_eq key k && (Calls.after_claim s r).1)
  unfolding claim_result
  sends_key-after_claim payload key hash s (ok (s', answer)) =
      sends_key-claim_outcome payload key hash answer
  sends_key-after_claim payload key hash s (err e) = unfold after_claim in ground arith

  claim_keyed_send-Progress :
      (kind : Persistence) (fault : Bool) (s : Requests.Store) (payload : P) (key hash : String)
      (at : ℕ)
      → has_store kind ≡ true
      → IsWhole s
      → Progress k s
          (claim_keyed_send kind fault s key hash at).0
          (sends_key k (after_claim payload key hash (claim_keyed_send kind fault s key hash at).1))
  unfolding claim_keyed_send
  claim_keyed_send-Progress no_store fault s payload key hash at h w = cc
  claim_keyed_send-Progress legacy fault s payload key hash at h w =
      unfold after_claim in Progress-same k s w
  claim_keyed_send-Progress atomic fault s payload key hash at h w =
      rw
        (
          claim_result-after_claim s (claim_service_request fault s key hash at),
          sends_key-after_claim payload key hash s (claim_service_request fault s key hash at),
        )
        (unfold step in step-Progress (λ json. true) k s (claims fault key hash at) w)

  begin_keyed-Progress :
      (c : Config) (fault : Bool) (s : State) (payload : P) (hash : Option String) (key : String)
      (at : ℕ)
      → has_store c.persistence ≡ true
      → IsWhole s.requests
      → Progress k s.requests
          (begin_keyed c fault s payload hash key at).0.requests
          (sends_key k (begin_keyed c fault s payload hash key at).1)
  unfolding begin_keyed
  begin_keyed-Progress c fault s payload none key at h w = Progress-same k s.requests w
  begin_keyed-Progress c fault s payload (some hash) key at h w =
      claim_keyed_send-Progress c.persistence fault s.requests payload key hash at h w

  begin_built-Progress :
      (c : Config) (fault : Bool) (s : State) (r : Request P) (payload : P) (hash : Option String)
      (header : KeyHeader)
      → IsWhole s.requests
      → Progress k s.requests
          (begin_built c fault s r payload hash header).0.requests
          (sends_key k (begin_built c fault s r payload hash header).1)
  unfolding begin_built
  begin_built-Progress c fault s r payload hash invalid_key w = Progress-same k s.requests w
  begin_built-Progress c fault s r payload hash no_key w = Progress-same k s.requests w
  begin_built-Progress c fault s r payload hash (raw_key raw) w =
      elim (Bool-cases (has_store c.persistence)) [
        | inl h ↦ rw h (
            begin_keyed-Progress c fault s payload hash
              (namespaced_idempotency_key c.digest c.phone_number_id c.waba_id r.operation raw) r.at
              h w)
        | inr h ↦ rw h (Progress-same k s.requests w)
      ]

  pub begin-Progress :
      (c : Config) (fault : Bool) (s : State) (r : Request P)
      → IsWhole s.requests
      → Progress k s.requests (begin c fault s r).0.requests (sends_key k (begin c fault s r).1)
  unfolding begin
  begin-Progress c fault s r w = incoming r.incoming
    where
      incoming :
          (i : Incoming P)
          → Progress k s.requests
              (begin_incoming c fault s r i).0.requests
              (sends_key k (begin_incoming c fault s r i).1)
      incoming malformed_json = unfold begin_incoming in Progress-same k s.requests w
      incoming malformed_body = unfold begin_incoming in Progress-same k s.requests w
      incoming (built payload hash) =
          unfold begin_incoming in
          begin_built-Progress c fault s r payload hash (safe_idempotency_key r.idempotency_key) w

complete_result-after :
    (s : Requests.Store) (r : Result ErrorCode Requests.Store)
    → (complete_result s r).0 ≡ Calls.after s r
unfolding complete_result
complete_result-after s (ok s') = refl
complete_result-after s (err e) = refl

complete_keyed_send-Progress :
    (k : String) (is_json : String → Bool) (kind : Persistence) (fault : Bool) (s : Requests.Store)
    (key hash json : String) (at : ℕ)
    → IsWhole s
    → Progress k s (complete_keyed_send kind is_json fault s key hash json at).0 false
unfolding complete_keyed_send
complete_keyed_send-Progress k is_json no_store fault s key hash json at w = Progress-same k s w
complete_keyed_send-Progress k is_json legacy fault s key hash json at w = Progress-same k s w
complete_keyed_send-Progress k is_json atomic fault s key hash json at w =
    rw (complete_result-after s (complete_service_request is_json fault s key hash json at))
      (unfold step in step-Progress is_json k s (completes fault key hash json at) w)

complete_claim-Progress :
    (k : String) (c : Config) (is_json : String → Bool) (rest : Rest) (claim : Claim)
    (json : ResultText) (s : Requests.Store)
    → IsWhole s
    → Progress k s (complete_claim c is_json rest claim json s).0 false
unfolding complete_claim
complete_claim-Progress k c is_json rest none json s w = Progress-same k s w
complete_claim-Progress k c is_json rest (some (key, hash)) unprintable s w = Progress-same k s w
complete_claim-Progress k c is_json rest (some (key, hash)) nothing s w = Progress-same k s w
complete_claim-Progress k c is_json rest (some (key, hash)) (json_text json) s w =
    complete_keyed_send-Progress k is_json c.persistence rest.completion_fault s key hash json
      rest.now w

pub finish-Progress :
    (k : String) (c : Config) (is_json : String → Bool) (rest : Rest) (s : State) (claim : Claim)
    (graph : GraphResult)
    → IsWhole s.requests
    → Progress k s.requests (finish c is_json rest s claim graph).0.requests false
unfolding finish
finish-Progress k c is_json rest s claim fails w = Progress-same k s.requests w
finish-Progress k c is_json rest s claim (sent json id) w =
    complete_claim-Progress k c is_json rest claim json s.requests w
