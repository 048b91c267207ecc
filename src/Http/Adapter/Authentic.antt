-- ===== src/Http/Adapter/Authentic.antt =====
-- Updates are dispatched exactly for a webhook that is authentic, within the limits, and normalized.
use wats.Base.{
  ℕ, ◌≤◌, ◌≡◌, ◌≢◌, refl, sym, inl, inr, true, false, some, List, [], ◌++◌, length, arith, ltb,
  Option-cases, Bool-cases,
}
use wats.Base.Result.{ok, ◌>>=◌}
use wats.Base.Text.{Text, codes, text_eq, text_eq_iff}
use wats.Http.Challenge.{
  Challenge, echo, rejects, refused, invalid_expected_verify_token, invalid_mode,
  invalid_verify_token, missing_challenge, crypto_provider_unavailable,
}
use wats.Http.Signature as Sig
use wats.Http.Signature.{header_digits, validate_webhook_signature}
use wats.Http.AdapterConfig.{Config}
use wats.Http.Adapter.{
  binary, Request, error_response, Platform, upper, challenge_response, replies, handle_verify,
  handle_dispatch, caught, handle_request,
}
use wats.Http.Adapter.Stages.{
  Dispatched, IsAccepted, Outcome, accepted, ignored, Outcome-map, IsBody, Outcome-handle_dispatch,
}
use wats.Http.Signature.{Provider, provided, signature_prefix}
use wats.Http.Signature.Hex.{hex_of}
use wats.Http.Signature.Accepted.{IsReady, validate_webhook_signature_iff}

get_is_not_post : (method : Text) → text_eq method (codes "GET") ≡ true → method ≢ codes "POST"
get_is_not_post method h e = ground (arith, text_eq_iff method (codes "GET"))

not_post : (method : Text) → text_eq method (codes "POST") ≡ false → method ≢ codes "POST"
not_post method h e = ground (arith, text_eq_iff method (codes "POST"))

module _ {X U : Type 0} (p : Platform X U) where
  answered :
      (P : List U → ℕ → Type 0) (challenge : Challenge X)
      → ((us : List U) (skipped : ℕ) → ¬ (P us skipped))
      → Outcome p P
          (caught p (challenge_response challenge >>= λ response. ok (replies p response)))
  unfolding challenge_response
  answered P (echo text) h = ignored refl (λ n m skipped. cc) h
  answered P (rejects x) h = ignored refl (λ n m skipped. cc) h
  answered P (refused invalid_verify_token) h = ignored refl (λ n m skipped. cc) h
  answered P (refused invalid_mode) h = ignored refl (λ n m skipped. cc) h
  answered P (refused missing_challenge) h = ignored refl (λ n m skipped. cc) h
  answered P (refused invalid_expected_verify_token) h = ignored refl (λ n m skipped. cc) h
  answered P (refused crypto_provider_unavailable) h = ignored refl (λ n m skipped. cc) h

  Outcome-handle_verify :
      (P : List U → ℕ → Type 0) (c : Config) (r : Request)
      → ((us : List U) (skipped : ℕ) → ¬ (P us skipped))
      → Outcome p P (caught p (handle_verify p c r))
  unfolding handle_verify
  Outcome-handle_verify P c r h = elim (Option-cases (p.search_params r.url)) [
    | inl e ↦ rw (e, handle_verify) (ignored refl (λ n m skipped. cc) h)
    | inr (get, e) ↦ rw (e, handle_verify) (answered P _ h)
  ]

  -- Whatever the request, and whatever fails in the provider or the normalizer: if it is a POST
  -- whose body is within the limit, validly signed, and parses to a value whose arrays and objects
  -- are nested at most 128 deep and that normalizes, then exactly its updates are handed to the
  -- facade, in order, and the summary counts them and those whose dispatch succeeds; otherwise
  -- nothing is handed to the facade and no summary is sent.
  pub handle_request-Outcome :
      (c : Config) (r : Request) → Outcome p (IsAccepted p c r) (handle_request p c r)
  unfolding handle_request
  handle_request-Outcome c r = elim (Bool-cases (text_eq (upper r.method) (codes "GET"))) [
    | inl get ↦ rw get (
        Outcome-handle_verify (IsAccepted p c r) c r
          (λ us skipped a. get_is_not_post (upper r.method) get a.posted))
    | inr other ↦ rw other (elim (Bool-cases (text_eq (upper r.method) (codes "POST"))) [
      | inl post ↦ rw post (
          Outcome-map p (IsBody p c r.body r.signature_header) (IsAccepted p c r)
            (caught p (handle_dispatch p c r.body r.signature_header))
            (λ us skipped. (
              (λ e. record {
                posted = (text_eq_iff (upper r.method) (codes "POST")).0 post;
                bytes = e.bytes;
                body = e.is_body;
                size = e.is_small;
                signed = e.is_signed.0;
                envelope = e.is_signed.1.envelope;
                parsed = e.is_signed.1.is_parsed;
                bounded = e.is_signed.1.is_bounded;
                updates = e.is_signed.1.updates;
              }),
              (λ a. record {
                bytes = a.bytes;
                is_body = a.body;
                is_small = a.size;
                is_signed = (
                  a.signed,
                  record {
                    envelope = a.envelope;
                    is_parsed = a.parsed;
                    is_bounded = a.bounded;
                    updates = a.updates;
                  },
                );
              }),
            ))
            (Outcome-handle_dispatch p c r.body r.signature_header))
      | inr neither ↦ rw neither (
          ignored refl (λ n m skipped. cc)
            (λ us skipped a. not_post (upper r.method) neither a.posted))
    ])
  ]

  -- An accepted webhook is dispatched whole.
  pub handle_request-accepts :
      (c : Config) (r : Request) (us : List U) (skipped : ℕ)
      → IsAccepted p c r us skipped
      → handle_request p c r ≡ Dispatched p us skipped
  handle_request-accepts c r us skipped a = elim (handle_request-Outcome c r) [
    | ignored nothing unsent never ↦ absurd (never us skipped a)
    | accepted vs other b e ↦
        ground (arith, a.body, b.body, a.parsed, b.parsed, a.updates, b.updates, e)
  ]

  -- For a provider whose digests are 32 bytes and which compares byte strings of one length by
  -- equality, and a secret that is not blank: a request that hands any update to the facade carries
  -- a body within the limit, and its signature header is `sha256=` with the lower-case hexadecimal
  -- digest of that body under the secret.
  pub handle_request-authentic :
      (q : Provider X) (mac : List ℕ → List ℕ) (c : Config) (r : Request)
      → p.provider ≡ provided q
      → ((bytes : List ℕ) → IsReady p.encode q c.app_secret (Sig.bytes bytes) (mac bytes))
      → (handle_request p c r).1 ≢ []
      → (bytes : List ℕ) × (r.body ≡ binary bytes)
        × (length bytes ≤ c.max_body_bytes)
        × (r.signature_header ≡ some (signature_prefix ++ hex_of (mac bytes)))
  handle_request-authentic q mac c r same ready sent = elim (handle_request-Outcome c r) [
    | ignored nothing unsent never ↦ absurd (sent nothing)
    | accepted us skipped a e ↦ (
      a.bytes,
      a.body,
      a.size,
      (validate_webhook_signature_iff p.encode q c.app_secret (Sig.bytes a.bytes) (mac a.bytes)
            r.signature_header (ready a.bytes)).0
          (rw (sym same) (a.signed)),
    )
  ]

  -- A POST whose body is over the limit.
  pub handle_request-over :
      (c : Config) (r : Request) (bytes : List ℕ)
      → upper r.method ≡ codes "POST"
      → r.body ≡ binary bytes
      → ltb c.max_body_bytes (length bytes) ≡ true
      → handle_request p c r ≡ replies p (error_response 413 "payload_too_large")
  unfolding handle_request handle_dispatch
  handle_request-over c r bytes post body big = rw (post, body, big) refl
