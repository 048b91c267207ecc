-- ===== src/Http/Adapter/Stages.antt =====
-- What each part of the handling of a webhook leaves behind, up to the handling of a POST.
use wats.Base.{
  ℕ, ◌≤◌, ◌≡◌, ◌≢◌, ◌↔◌, refl, inl, inr, Bool, true, false, Option, none, some, List, [], length,
  arith, ltb, Bool-cases,
}
use wats.Base.Json.{Json}
use wats.Base.Text.{Text, codes}
use wats.Http.Envelope.{max_envelope_depth}
use wats.Http.Envelope.Bounded.{within, is_bounded_envelope-within}
use wats.Http.Signature as Sig
use wats.Http.Signature.Accepted.{validate-missing, validate-format}
use wats.Http.Signature.{header_digits, validate_webhook_signature}
use wats.Http.AdapterConfig.{Config}
use wats.Http.Adapter.{
  Body, no_body, not_binary, binary, Request, summary, Normalized, normalized, invalid_envelope,
  breaks, Platform, upper, signature_response, Handled, delivered, dispatch_all, handle_bounded,
  handle_envelope, handle_form, handle_validated, handle_signed, handle_dispatch, caught,
}

module _ {X U : Type 0} (p : Platform X U) where
  abbrev pub Dispatched : List U → ℕ → Handled p
  Dispatched us skipped = (summary (length us) (delivered p us 0) skipped, us)

  -- A POST whose body is within its limit and signed, and parses to an envelope that is not nested
  -- too deep and normalizes to these updates.
  pub record IsAccepted (c : Config) (r : Request) (us : List U) (skipped : ℕ) : Type 0 where
    pub posted : upper r.method ≡ codes "POST"
    pub bytes : List ℕ
    pub body : r.body ≡ binary bytes
    pub size : length bytes ≤ c.max_body_bytes
    pub signed :
        validate_webhook_signature p.encode p.provider
          (some c.app_secret)
          (Sig.bytes bytes)
          r.signature_header
        ≡ Sig.valid
    pub envelope : Json
    pub parsed : p.parse_json (p.decode bytes) ≡ some envelope
    pub bounded : within max_envelope_depth envelope 0 ≡ true
    pub updates : p.normalize envelope ≡ normalized us skipped

  -- What a part of the handling leaves behind, for the condition under which it accepts: the
  -- updates, or nothing for the facade and an error or a challenge for the caller.
  pub data Outcome (P : List U → ℕ → Type 0) (h : Handled p) : Type 0 where
    accepted : (us : List U) (skipped : ℕ) → P us skipped → h ≡ Dispatched us skipped → Outcome P h
    ignored :
        h.1 ≡ []
        → ((n m skipped : ℕ) → h.0 ≢ summary n m skipped)
        → ((us : List U) (skipped : ℕ) → ¬ (P us skipped))
        → Outcome P h

  pub Outcome-map :
      (P Q : List U → ℕ → Type 0) (h : Handled p)
      → ((us : List U) (skipped : ℕ) → P us skipped ↔ Q us skipped)
      → Outcome P h
      → Outcome Q h
  Outcome-map P Q h f (accepted us skipped a e) = accepted us skipped ((f us skipped).0 a) e
  Outcome-map P Q h f (ignored none_sent unsent never) =
      ignored none_sent unsent (λ us skipped q. never us skipped ((f us skipped).1 q))

  Outcome-dispatch_all :
      (n : Normalized U) → Outcome (λ us skipped. n ≡ normalized us skipped) (dispatch_all p n)
  unfolding dispatch_all
  Outcome-dispatch_all (normalized us skipped) = accepted us skipped refl refl
  Outcome-dispatch_all (invalid_envelope code) = ignored refl (λ n m skipped. cc) (λ us skipped. cc)
  Outcome-dispatch_all breaks = ignored refl (λ n m skipped. cc) (λ us skipped. cc)

  -- The parsed envelope that gives the updates.
  pub record IsEnvelope (parsed : Option Json) (us : List U) (skipped : ℕ) : Type 0 where
    pub envelope : Json
    pub is_parsed : parsed ≡ some envelope
    pub is_bounded : within max_envelope_depth envelope 0 ≡ true
    pub updates : p.normalize envelope ≡ normalized us skipped

  Outcome-handle_bounded :
      (j : Json) (deep : Bool)
      → within max_envelope_depth j 0 ≡ deep
      → Outcome (IsEnvelope (some j)) (handle_bounded p j (some deep))
  unfolding handle_bounded
  Outcome-handle_bounded j true h =
      Outcome-map (λ us skipped. p.normalize j ≡ normalized us skipped) (IsEnvelope (some j))
        (dispatch_all p (p.normalize j))
        (λ us skipped. (
          (λ e. record { envelope = j; is_parsed = refl; is_bounded = h; updates = e }),
          (λ e. ground (arith, e.is_parsed, e.updates)),
        ))
        (Outcome-dispatch_all (p.normalize j))
  Outcome-handle_bounded j false h =
      ignored refl (λ n m skipped. cc)
        (λ us skipped e. ground (arith, h, e.is_parsed, e.is_bounded))

  Outcome-handle_envelope :
      (parsed : Option Json) → Outcome (IsEnvelope parsed) (handle_envelope p parsed)
  unfolding handle_envelope
  Outcome-handle_envelope none = ignored refl (λ n m skipped. cc) (λ us skipped e. cc (e.is_parsed))
  Outcome-handle_envelope (some j) =
      rw (is_bounded_envelope-within j)
        (Outcome-handle_bounded j (within max_envelope_depth j 0) refl)

  -- The result of the validation, and the envelope in the bytes.
  abbrev pub IsSigned : List ℕ → Sig.Validation X → List U → ℕ → Type 0
  IsSigned bytes v us skipped =
      (v ≡ Sig.valid) × IsEnvelope (p.parse_json (p.decode bytes)) us skipped

  Outcome-handle_validated :
      (bytes : List ℕ) (v : Sig.Validation X)
      → Outcome (IsSigned bytes v) (caught p (handle_validated p bytes v))
  unfolding handle_validated signature_response
  Outcome-handle_validated bytes (Sig.rejects x) =
      ignored refl (λ n m skipped. cc) (λ us skipped e. cc (e.0))
  Outcome-handle_validated bytes (Sig.invalid code) =
      ignored refl (λ n m skipped. ground arith) (λ us skipped e. cc (e.0))
  Outcome-handle_validated bytes Sig.valid =
      Outcome-map (IsEnvelope (p.parse_json (p.decode bytes))) (IsSigned bytes Sig.valid)
        (handle_envelope p (p.parse_json (p.decode bytes)))
        (λ us skipped. ((λ e. (refl, e)), (λ e. e.1)))
        (Outcome-handle_envelope (p.parse_json (p.decode bytes)))

  Outcome-handle_form :
      (bytes : List ℕ) (digits : Option (List ℕ)) (v : Sig.Validation X)
      → (digits ≡ none → v ≢ Sig.valid)
      → Outcome (IsSigned bytes v) (caught p (handle_form p bytes digits v))
  unfolding handle_form
  Outcome-handle_form bytes (some digits) v h = Outcome-handle_validated bytes v
  Outcome-handle_form bytes none v h =
      ignored refl (λ n m skipped. cc) (λ us skipped e. h refl (e.0))

  abbrev pub validation : Config → List ℕ → Option Text → Sig.Validation X
  validation c bytes header =
      validate_webhook_signature p.encode p.provider (some c.app_secret) (Sig.bytes bytes) header

  Outcome-handle_signed :
      (c : Config) (bytes : List ℕ) (header : Option Text)
      → Outcome
          (IsSigned bytes (validation c bytes header))
          (caught p (handle_signed p c bytes header))
  unfolding handle_signed
  Outcome-handle_signed c bytes none =
      ignored refl (λ n m skipped. cc)
        (λ us skipped e.
          validate-missing p.encode p.provider (some c.app_secret) (Sig.bytes bytes) (e.0))
  Outcome-handle_signed c bytes (some header) =
      Outcome-handle_form bytes (header_digits header) (validation c bytes (some header))
        (validate-format p.encode p.provider (some c.app_secret) (Sig.bytes bytes) header)

  -- A body within the limit, and what its signature says.
  pub record IsBody (c : Config) (body : Body) (header : Option Text) (us : List U) (skipped : ℕ)
      : Type 0 where
    pub bytes : List ℕ
    pub is_body : body ≡ binary bytes
    pub is_small : length bytes ≤ c.max_body_bytes
    pub is_signed : IsSigned bytes (validation c bytes header) us skipped

  pub Outcome-handle_dispatch :
      (c : Config) (body : Body) (header : Option Text)
      → Outcome (IsBody c body header) (caught p (handle_dispatch p c body header))
  unfolding handle_dispatch
  Outcome-handle_dispatch c no_body header =
      ignored refl (λ n m skipped. cc) (λ us skipped e. cc (e.is_body))
  Outcome-handle_dispatch c not_binary header =
      ignored refl (λ n m skipped. cc) (λ us skipped e. cc (e.is_body))
  Outcome-handle_dispatch c (binary bytes) header =
      elim (Bool-cases (ltb c.max_body_bytes (length bytes))) [
        | inl big ↦ rw big (
            ignored refl (λ n m skipped. cc)
              (λ us skipped e. ground (arith, e.is_body, e.is_small, big)))
        | inr small ↦ rw small (
            Outcome-map (IsSigned bytes (validation c bytes header))
              (IsBody c (binary bytes) header) (caught p (handle_signed p c bytes header))
              (λ us skipped. (
                (λ e. record {
                  bytes = bytes;
                  is_body = refl;
                  is_small = ground (arith, small);
                  is_signed = e;
                }),
                (λ e. rw (← same e.bytes e.is_body) at (e.is_signed)),
              ))
              (Outcome-handle_signed c bytes header))
      ]
    where
      same : (other : List ℕ) → binary bytes ≡ binary other → bytes ≡ other
      same other e = cc
