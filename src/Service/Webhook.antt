-- ===== src/Service/Webhook.antt =====
-- packages/service/src/index.ts, `handleWebhook` with a store: the updates of an accepted webhook are
-- recorded under their keys, projected into the store, and dispatched if they are new. Telemetry is
-- left out.
pub mod Sorting
pub mod Once
mod Tests
use Prim.Native.String
use Prim.Native.String.{String}
use wats.Base.{
  ℕ, suc, Bool, true, false, not, Option, none, some, List, [], ◌∷◌, ◌++◌, any, length,
  if◌then◌else◌,
}
use wats.Base.Json.{Json, null, bool, num, str, arr, obj, Fields}
use wats.Base.Result.{Result, ok, err}
use wats.Base.Text.{Text, codes, text_eq}
use wats.Http.AdapterConfig.{Config}
use wats.Http.Adapter.{
  Request, Response, error_response, summary, challenge_text, Platform, delivered,
}
use wats.Http.Wrappers as Wrappers
use wats.Http.Wrappers.{fetch_handler}
use wats.Persistence.Validation.{ErrorCode}
use wats.Persistence.Messages as Messages
use wats.Persistence.WebhookEvents as Events
use wats.Persistence.WebhookEvents.{RecordResult, recorded, duplicate, record_webhook_event}
use wats.Service.Canonical.{is_within_depth_limit}
use wats.Service.DedupKeys.{extract_dedup_key}
use wats.Service.Projection.{project_all}

-- The tables that the handler uses.
pub record State : Type 0 where
  pub events : Events.Store
  pub messages : Messages.Store

-- One call: the request with its declared length and its body, the time of receipt, the faults of
-- the store at each update, and the fresh row ids.
pub record Call : Type 0 where
  pub request : Request
  pub declared : Option ℕ
  pub source : Wrappers.Source
  pub now : ℕ
  pub event_fault : ℕ → Bool
  pub message_fault : ℕ → Bool
  pub row_id : ℕ → String

-- `toDispatch`, `deduped`, `dedupFailed` and the table of events after the loop.
pub record Sorted : Type 0 where
  pub to_dispatch : List Json
  pub deduped : List Json
  pub failed : Bool
  pub events : Events.Store

abbrev pub with_new : Json → Sorted → Sorted
with_new u r = record r { to_dispatch = u ∷ r.to_dispatch }

abbrev pub with_known : Json → Sorted → Sorted
with_known u r = record r { deduped = u ∷ r.deduped }

-- The rest of a round for what `recordWebhookEvent` gives; `more` are the rounds after it.
pub sort_recorded :
    Json
    → Events.Store
    → Result ErrorCode (Events.Store × RecordResult)
    → (Events.Store → Sorted)
    → Sorted
sort_recorded u s (ok (s', recorded)) more = with_new u (more s')
sort_recorded u s (ok (s', duplicate)) more = with_known u (more s')
sort_recorded u s (err e) more = record {
  to_dispatch = [];
  deduped = [];
  failed = true;
  events = s;
}

pub sort_update : Bool → ℕ → Json → Option String → Events.Store → (Events.Store → Sorted) → Sorted
sort_update fault now u none s more = with_new u (more s)
sort_update fault now u (some key) s more =
    sort_recorded u s (record_webhook_event fault s key (String.◌++◌ "sha256:" key) now) more

module _ (sha256_hex : Text → String) where
  -- The loop over the staged updates, from a position on.
  pub sort_updates : (ℕ → Bool) → ℕ → List Json → ℕ → Events.Store → Sorted
  sort_updates fault now [] i s = record {
    to_dispatch = [];
    deduped = [];
    failed = false;
    events = s;
  }
  sort_updates fault now (u ∷ us) i s =
      sort_update (fault i) now u (extract_dedup_key sha256_hex u) s
        (sort_updates fault now us (suc i))

-- What a call leaves behind: the state, the response, and the updates that were dispatched, in order.
pub record Outcome : Type 0 where
  pub state : State
  pub response : Response
  pub dispatched : List Json

module _ {X : Type 0} (p : Platform X Json) (sha256_hex : Text → String)
    (read : Text → String) where
  -- The platform with the staging facade, whose dispatch always succeeds.
  abbrev pub staging : Platform X Json
  staging = record p { delivers = λ i u. true }

  pub respond : List Json → Sorted → Response
  respond staged r =
      if r.failed
      then error_response 503 "persistence_unavailable"
      else summary (length staged) (delivered p r.to_dispatch 0) (length r.deduped)

  pub handle_sorted : Call → State → List Json → Sorted → Outcome
  handle_sorted call s staged r = record {
    state = record {
      events = r.events;
      messages =
          project_all read call.message_fault call.row_id call.now (r.to_dispatch ++ r.deduped) 0
            s.messages;
    };
    response = respond staged r;
    dispatched = r.to_dispatch;
  }

  -- From the staged updates on.
  pub handle_staged : Call → State → Response → List Json → Outcome
  handle_staged call s response [] = record { state = s; response = response; dispatched = [] }
  handle_staged call s response (u ∷ us) =
      if any (λ v. not (is_within_depth_limit v)) (u ∷ us)
      then record {
        state = s;
        response = error_response 400 "payload_depth_exceeded";
        dispatched = [];
      }
      else handle_sorted call s (u ∷ us)
          (sort_updates sha256_hex call.event_fault call.now (u ∷ us) 0 s.events)

  -- `handleWebhook`. The adapter stages updates only with status 200.
  pub handle_webhook : Config → State → Call → Outcome
  handle_webhook c s call =
      let (response, staged) = fetch_handler staging c call.declared call.source call.request in
      handle_staged call s response staged
