-- ===== src/Http/Adapter.antt =====
-- packages/http/src/adapters/webhookAdapter.ts: a webhook request is checked, parsed, normalized and
-- dispatched. What the logger is told has no effect and is left out, and so are the headers and the
-- messages of responses. Texts are lists of UTF-16 code units and bodies lists of bytes.
pub mod Stages
pub mod Authentic
mod Tests
use Prim.Native.String.{String}
use wats.Base.{
  ℕ, suc, ◌+◌, ◌-◌, Bool, true, false, not, ◌&&◌, ◌||◌, Option, none, some, List, [], ◌∷◌, any,
  length, leb, ltb, ◌==◌, if◌then◌else◌,
}
use wats.Base.Json.{Json}
use wats.Base.Result.{Result, ok, err, ◌>>=◌, ◌>>◌, guard}
use wats.Base.Text.{Text, codes, text_eq}
use wats.Http.AdapterConfig.{Config}
use wats.Http.Challenge.{
  ErrorCode, invalid_expected_verify_token, invalid_mode, invalid_verify_token, missing_challenge,
  crypto_provider_unavailable, Challenge, echo, refused, rejects, verify_webhook_challenge,
}
use wats.Http.Envelope.{is_bounded_envelope}
use wats.Http.Signature as Sig
use wats.Http.Signature.{Acquired, header_digits, is_blank, validate_webhook_signature}

-- A request's body: `null` or `undefined`, a value that holds no bytes, or the bytes of a buffer or
-- a view. Shared and detached buffers are left out.
pub data Body : Type 0 where
  no_body not_binary : Body
  binary : List ℕ → Body

pub record Request : Type 0 where
  pub method : Text
  pub url : Text
  -- `headers.get("x-hub-signature-256")`
  pub signature_header : Option Text
  pub body : Body

-- `WebhookResponse`: the challenge, an error with its code, or the summary of a dispatch with the
-- counts of the updates that it received, dispatched and skipped.
pub data Response : Type 0 where
  challenge_text : Text → Response
  error_response : ℕ → String → Response
  summary : ℕ → ℕ → ℕ → Response

-- What `normalizeWebhookEnvelope` gives: the updates and the count of what it skips, a
-- `WebhookNormalizationError`, or another error.
pub data Normalized (U : Type 0) : Type 0 where
  normalized : List U → ℕ → Normalized U
  invalid_envelope : String → Normalized U
  breaks : Normalized U

-- What the adapter uses: the platform's text coding, its JSON parser and its URL parser (the search
-- parameters of a URL), the crypto provider, the normalizer, and whether the facade's dispatch of
-- an update at a position succeeds.
pub record Platform (X U : Type 0) : Type 0 where
  pub encode : Text → List ℕ
  pub decode : List ℕ → Text
  pub parse_json : Text → Option Json
  pub search_params : Text → Option (Text → Option Text)
  pub provider : Acquired X
  pub normalize : Json → Normalized U
  pub delivers : ℕ → U → Bool

-- `toUpperCase`, as far as what it gives can be `GET` or `POST`: a code unit that it replaces by
-- other letters is left alone.
unfoldable pub upper : Text → Text
upper [] = []
upper (c ∷ s) =
    let rest = upper s in
    if leb b'a' c && leb c b'z'
    then (c - 32) ∷ rest
    else if c == 0x17f
    then b'S' ∷ rest
    else if c == 0xfb05 || c == 0xfb06
    then b'S' ∷ b'T' ∷ rest
    else c ∷ rest

-- The response to a challenge, or what the check rejects with.
pub challenge_response : {X : Type 0} → Challenge X → Result X Response
challenge_response (echo challenge) = ok (challenge_text challenge)
challenge_response (rejects x) = err x
challenge_response (refused invalid_verify_token) = ok (error_response 401 "invalid_verify_token")
challenge_response (refused invalid_mode) = ok (error_response 400 "invalid_mode")
challenge_response (refused missing_challenge) = ok (error_response 400 "missing_challenge")
challenge_response (refused invalid_expected_verify_token) =
    ok (error_response 500 "invalid_expected_verify_token")
challenge_response (refused crypto_provider_unavailable) =
    ok (error_response 500 "crypto_provider_unavailable")

-- The response to a webhook whose signature is refused.
pub signature_response : Sig.ErrorCode → Response
signature_response Sig.missing_signature = error_response 401 "missing_signature"
signature_response Sig.signature_mismatch = error_response 401 "signature_mismatch"
signature_response Sig.invalid_signature_format = error_response 400 "invalid_signature_format"
signature_response Sig.invalid_raw_body = error_response 500 "invalid_raw_body"
signature_response Sig.invalid_app_secret = error_response 500 "invalid_app_secret"
signature_response Sig.crypto_provider_unavailable =
    error_response 500 "crypto_provider_unavailable"

module _ {X U : Type 0} (p : Platform X U) where
  -- What handling a request leaves behind: the response, and the updates that were handed to the
  -- facade, in order.
  abbrev pub Handled : Type 0
  Handled = Response × List U

  abbrev pub replies : Response → Handled
  replies r = (r, [])

  pub handle_verify : Config → Request → Result X Handled
  handle_verify c r = elim (p.search_params r.url) [
    | none ↦ ok (replies (error_response 400 "invalid_request"))
    | some get ↦ do
      response ← challenge_response (
          verify_webhook_challenge p.encode p.provider c.verify_token (get (codes "hub.mode"))
            (get (codes "hub.verify_token")) (get (codes "hub.challenge")))
      ok (replies response)
  ]

  -- How many of the updates from a position on are dispatched without an error.
  unfoldable pub delivered : List U → ℕ → ℕ
  delivered [] i = 0
  delivered (u ∷ us) i = (if p.delivers i u then 1 else 0) + delivered us (suc i)

  pub dispatch_all : Normalized U → Handled
  dispatch_all (invalid_envelope code) = replies (error_response 400 code)
  dispatch_all breaks = replies (error_response 500 "normalize_failed")
  dispatch_all (normalized us skipped) = (summary (length us) (delivered us 0) skipped, us)

  -- From the answer of `isBoundedEnvelope` on.
  pub handle_bounded : Json → Option Bool → Handled
  handle_bounded envelope (some true) = dispatch_all (p.normalize envelope)
  handle_bounded envelope (some false) = replies (error_response 400 "payload_depth_exceeded")
  handle_bounded envelope none = replies (error_response 400 "payload_depth_exceeded")

  -- From the parsed envelope on.
  pub handle_envelope : Option Json → Handled
  handle_envelope none = replies (error_response 400 "invalid_json")
  handle_envelope (some envelope) = handle_bounded envelope (is_bounded_envelope envelope)

  -- From the result of `validateWebhookSignature` on.
  pub handle_validated : List ℕ → Sig.Validation X → Result X Handled
  handle_validated bytes (Sig.rejects x) = err x
  handle_validated bytes (Sig.invalid code) = ok (replies (signature_response code))
  handle_validated bytes Sig.valid = ok (handle_envelope (p.parse_json (p.decode bytes)))

  -- From the test of the signature header's form on, for the result of the validation.
  pub handle_form : List ℕ → Option (List ℕ) → Sig.Validation X → Result X Handled
  handle_form bytes none validation = ok (replies (error_response 400 "invalid_signature_format"))
  handle_form bytes (some digits) validation = handle_validated bytes validation

  -- From the signature header on.
  unfoldable pub handle_signed : Config → List ℕ → Option Text → Result X Handled
  handle_signed c bytes none = ok (replies (error_response 401 "missing_signature"))
  handle_signed c bytes (some header) = handle_form bytes (header_digits header) (
      validate_webhook_signature p.encode p.provider (some c.app_secret) (Sig.bytes bytes)
        (some header))

  unfoldable pub handle_dispatch : Config → Body → Option Text → Result X Handled
  handle_dispatch c not_binary header = ok (replies (error_response 400 "invalid_request_body"))
  handle_dispatch c no_body header = ok (replies (error_response 400 "missing_body"))
  handle_dispatch c (binary bytes) header =
      if ltb c.max_body_bytes (length bytes)
      then ok (replies (error_response 413 "payload_too_large"))
      else handle_signed c bytes header

  -- The `catch` clause of `handleRequest`.
  abbrev pub caught : Result X Handled → Handled
  caught (ok h) = h
  caught (err x) = replies (error_response 500 "internal_error")

  unfoldable pub handle_request : Config → Request → Handled
  handle_request c r = caught (
      if text_eq (upper r.method) (codes "GET")
      then handle_verify c r
      else if text_eq (upper r.method) (codes "POST")
      then handle_dispatch c r.body r.signature_header
      else ok (replies (error_response 405 "method_not_allowed")))
