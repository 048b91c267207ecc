-- ===== src/Service/Webhook/Once.antt =====
-- Updates with one key over a history of webhooks.
use Prim.Native.String.{String}
use wats.Base.{ℕ, ◌+◌, ◌≤◌, ◌≡◌, inl, inr, true, not, List, [], ◌∷◌, ◌++◌, any, arith, Bool-cases}
use wats.Base.Json.{Json}
use wats.Base.Text.{Text}
use wats.Http.AdapterConfig.{Config}
use wats.Http.Adapter.{Response, summary, error_response, Platform}
use wats.Http.Wrappers.{fetch_handler}
use wats.Persistence.WebhookEvents.Fresh.{fresh}
use wats.Service.Canonical.{is_within_depth_limit}
use wats.Service.Webhook.{
  State, Call, Sorted, sort_updates, staging, respond, handle_sorted, handle_staged, handle_webhook,
}
use wats.Service.Webhook.Sorting.{has_key, count, count-append, IsSorted, sort_updates-IsSorted}

module _ {X : Type 0} (sha256_hex read : Text → String) (k : String) (c : Config) where
  handle_staged-counted :
      (p : Platform X Json) (call : Call) (s : State) (response : Response) (staged : List Json)
      → fresh k s.events
        ≡ count sha256_hex k (handle_staged p sha256_hex read call s response staged).dispatched
          + fresh k (handle_staged p sha256_hex read call s response staged).state.events
  unfolding handle_staged handle_sorted
  handle_staged-counted p call s response [] = unfold count in omega arith
  handle_staged-counted p call s response (u ∷ us) =
      elim (Bool-cases (any (λ v. not (is_within_depth_limit v)) (u ∷ us))) [
        | inl deep ↦ rw deep (unfold count in omega arith)
        | inr flat ↦
            rw flat
              (sort_updates-IsSorted sha256_hex k call.event_fault call.now (u ∷ us) 0
                s.events).counted
      ]

  handle_webhook-counted :
      (p : Platform X Json) (s : State) (call : Call)
      → fresh k s.events
        ≡ count sha256_hex k (handle_webhook p sha256_hex read c s call).dispatched
          + fresh k (handle_webhook p sha256_hex read c s call).state.events
  unfolding handle_webhook
  handle_webhook-counted p s call = handle_staged-counted p call s _ _

  -- All updates that a history of webhooks dispatches; each call has the platform as it finds it.
  pub dispatched_in : State → List (Platform X Json × Call) → List Json
  dispatched_in s [] = []
  dispatched_in s ((p, call) ∷ calls) =
      let o = handle_webhook p sha256_hex read c s call in
      o.dispatched ++ dispatched_in o.state calls

  -- Over any history of webhook requests, one after another, with any contents, deliveries that are
  -- repeated, failures of the store and of the handlers: at most one update with a key is
  -- dispatched, and none if the key is in the table of events at first.
  pub dispatched_in-at-most-once :
      (s : State) (calls : List (Platform X Json × Call))
      → count sha256_hex k (dispatched_in s calls) ≤ fresh k s.events
  unfolding dispatched_in
  dispatched_in-at-most-once s [] = unfold count in omega arith
  dispatched_in-at-most-once s ((p, call) ∷ calls) =
      let o = handle_webhook p sha256_hex read c s call in
      omega (
        arith,
        handle_webhook-counted p s call,
        count-append sha256_hex k o.dispatched (dispatched_in o.state calls),
        dispatched_in-at-most-once o.state calls,
      )

  -- The updates that the adapter stages for a call.
  unfoldable pub staged : Platform X Json → Call → List Json
  staged p call =
      (fetch_handler (staging p sha256_hex read) c call.declared call.source call.request).1

  sorted-new :
      (p : Platform X Json) (us : List Json) (s : State) (r : Sorted)
      (received dispatched skipped : ℕ)
      → IsSorted sha256_hex k s.events (any (has_key sha256_hex k) us) r
      → respond p sha256_hex read us r ≡ summary received dispatched skipped
      → any (has_key sha256_hex k) us ≡ true
      → count sha256_hex k r.to_dispatch ≡ fresh k s.events
  unfolding respond
  sorted-new p us s r n m d i h met = ground (arith, i.counted, i.used met, h)

  handle_staged-new :
      (p : Platform X Json) (call : Call) (s : State) (response : Response) (us : List Json)
      (received dispatched skipped : ℕ)
      → (handle_staged p sha256_hex read call s response us).response
        ≡ summary received dispatched skipped
      → any (has_key sha256_hex k) us ≡ true
      → count sha256_hex k (handle_staged p sha256_hex read call s response us).dispatched
        ≡ fresh k s.events
  unfolding handle_staged handle_sorted
  handle_staged-new p call s response [] n m d h met = cc
  handle_staged-new p call s response (u ∷ us) n m d h met =
      elim (Bool-cases (any (λ v. not (is_within_depth_limit v)) (u ∷ us))) [
        | inl deep ↦ absurd (refused (rw deep at h))
        | inr flat ↦ rw flat (
            sorted-new p (u ∷ us) s
              (sort_updates sha256_hex call.event_fault call.now (u ∷ us) 0 s.events) n m d
              (sort_updates-IsSorted sha256_hex k call.event_fault call.now (u ∷ us) 0 s.events)
              (rw flat at h) met)
      ]
    where
      refused : error_response 400 "payload_depth_exceeded" ≡ summary n m d → ⊥
      refused e = cc

  -- A webhook that is answered with a summary and that brings an update with a key: exactly one
  -- update with this key is dispatched if the key was not in the table of events, and none if it
  -- was, although some handlers of the updates may fail.
  pub handle_webhook-exactly-once :
      (p : Platform X Json) (s : State) (call : Call) (received dispatched skipped : ℕ)
      → (handle_webhook p sha256_hex read c s call).response ≡ summary received dispatched skipped
      → any (has_key sha256_hex k) (staged p call) ≡ true
      → count sha256_hex k (handle_webhook p sha256_hex read c s call).dispatched ≡ fresh k s.events
  unfolding handle_webhook staged
  handle_webhook-exactly-once p s call n m d h met = handle_staged-new p call s _ _ n m d h met
