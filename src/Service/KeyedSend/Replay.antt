-- ===== src/Service/KeyedSend/Replay.antt =====
-- A response that was recorded under a key is the one that is replayed under it.
use Prim.Native.String.{String}
use text.Mathlib.Text.{◌==◌ as str_eq}
use text.Mathlib.TextPositions.{eq_refl}
use wats.Base.{
  ◌≡◌, ◌∙◌, refl, inl, inr, Bool-cases, Bool, true, false, Option, some, List, [], ◌∷◌, arith,
}
use text.Mathlib.TextEquality.{eq_iff}
use mathlib.Core.Path.{subst}
use wats.Base.Result.{ok}
use wats.Persistence.Validation.{is_record_string}
use wats.Persistence.ServiceRequests.Slots.{
  Slot, reserved, finished, slot, slot_complete, IsWhole, IsReady,
}
use wats.Persistence.ServiceRequests.Completion.{IsResponse, complete_service_request-Changes}
use wats.Service.KeyedSend.{
  atomic, State, complete_result, complete_keyed_send, Request, Config, replayed, json_text, result,
  answers, begin, sent, Rest, complete_claim, finish,
}
use wats.Service.KeyedSend.Once.{Event, next, next-Progress}
use wats.Service.KeyedSend.Answers.{IsKeyed, slot_decision, begin-slot_decision}

empty_refused : (value : String) → value ≡ "" → is_record_string value ≡ true → ⊥
empty_refused value e h = refused (subst (λ v. is_record_string v ≡ true) e h)
  where
    refused : is_record_string "" ≡ true → ⊥
    refused h = unfold is_record_string in cc

is_record_string-ne-empty :
    (value : String) → is_record_string value ≡ true → str_eq value "" ≡ false
is_record_string-ne-empty value h = elim (Bool-cases (str_eq value "")) [
  | inr e ↦ e
  | inl e ↦ absurd (empty_refused value ((eq_iff value "").0 e) h)
]

module _ (c : Config) (is_json : String → Bool) where
  reserved-slot_complete :
      (hash json : String) (x : Slot)
      → x ≡ reserved hash
      → slot_complete hash json x ≡ ok (finished hash json)
  unfolding slot_complete
  reserved-slot_complete hash json x e = rw e (ground (arith, eq_refl hash))

  -- The table after the end of a handler that holds the key.
  pub finish-finished :
      (s : State) (rest : Rest) (key hash json : String) (id : Option String)
      → c.persistence ≡ atomic
      → IsReady s.requests key hash
      → IsResponse is_json json
      → slot key s.requests ≡ reserved hash
      → rest.completion_fault ≡ false
      → ((finish c is_json rest s (some (key, hash)) (sent (json_text json) id)).1
          ≡ result (json_text json) false)
        × IsWhole (finish c is_json rest s (some (key, hash)) (sent (json_text json) id)).0.requests
        × (slot key
              (finish c is_json rest s (some (key, hash)) (sent (json_text json) id)).0.requests
            ≡ finished hash json)
        × ((finish c is_json rest s (some (key, hash)) (sent (json_text json) id)).0.requests.closed
            ≡ s.requests.closed)
  unfolding finish complete_claim complete_keyed_send complete_result
  finish-finished s rest key hash json id stores v w held sound =
      let (s', done, change) =
        complete_service_request-Changes is_json s.requests key hash json rest.now v w
          (finished hash json) (reserved-slot_complete hash json (slot key s.requests) held) in
      rw (stores, sound, done)
        (refl, change.whole, change.slots key ∙ ground (arith, eq_refl key), change.closed)

  module _ {P : Type 0} where
    -- The state after a history of handlers' steps.
    unfoldable pub after_events : State → List (Event P) → State
    after_events s [] = s
    after_events s (e ∷ es) = after_events (next c is_json s e) es

    after_events-finished :
        (key hash json : String) (s : State) (es : List (Event P))
        → IsWhole s.requests
        → slot key s.requests ≡ finished hash json
        → IsWhole (after_events s es).requests
          × (slot key (after_events s es).requests ≡ finished hash json)
    unfolding after_events
    after_events-finished key hash json s [] w e = (w, e)
    after_events-finished key hash json s (a ∷ es) w e =
        let p = next-Progress c is_json key s a w in
        after_events-finished key hash json (next c is_json s a) es p.whole (p.fixed hash json e)

    finished-replayed :
        (payload : P) (key hash json : String) (x : Slot)
        → x ≡ finished hash json
        → IsResponse is_json json
        → slot_decision c payload key hash x ≡ answers (replayed json)
    finished-replayed payload key hash json x e w =
        rw (e, eq_refl hash, is_record_string-ne-empty json w.valid) refl

    -- Take a store with claims, open and with its completed rows having their response, and a handler
    -- that holds a valid key under a valid hash, whose Graph call gives a result with a valid JSON
    -- text, and whose completion meets no failing statement. It answers with the result and no mark
    -- of a degraded store; and after any further steps of any handlers, a request with this key and
    -- hash, while the store is open and if the statement of its claim does not fail, is answered
    -- with the same text.
    pub finish-begin :
        (s : State) (rest : Rest) (r : Request P) (payload : P) (key hash json : String)
        (id : Option String) (es : List (Event P))
        → IsKeyed c r payload key hash
        → IsReady s.requests key hash
        → IsResponse is_json json
        → slot key s.requests ≡ reserved hash
        → rest.completion_fault ≡ false
        → (after_events
            (finish c is_json rest s (some (key, hash)) (sent (json_text json) id)).0
            es).requests.closed
          ≡ false
        → ((finish c is_json rest s (some (key, hash)) (sent (json_text json) id)).1
            ≡ result (json_text json) false)
          × ((begin c false
                (after_events
                  (finish c is_json rest s (some (key, hash)) (sent (json_text json) id)).0
                  es)
                r).1
              ≡ answers (replayed json))
    finish-begin s rest r payload key hash json id es k v w held sound still_open =
        let (answer, whole, done, closed) =
          finish-finished s rest key hash json id k.stores v w held sound in
        let (whole', done') =
          after_events-finished key hash json
            (finish c is_json rest s (some (key, hash)) (sent (json_text json) id)).0 es whole
            done in
        (
          answer,
          (begin-slot_decision c
                (after_events
                  (finish c is_json rest s (some (key, hash)) (sent (json_text json) id)).0 es)
                r payload key hash k
                (record {
                  is_open = still_open;
                  key_valid = v.key_valid;
                  hash_valid = v.hash_valid;
                  whole = whole';
                })).0
              ∙ finished-replayed payload key hash json _ done' w,
        )
