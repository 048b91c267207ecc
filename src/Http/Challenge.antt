-- ===== src/Http/Challenge.antt =====
-- packages/http/src/webhookServer.ts, `verifyWebhookChallenge`: the handshake by which a webhook is
-- subscribed. Texts are lists of UTF-16 code units; a value that is no string is `none`.
pub mod Handshake
mod Tests
use wats.Base.{
  Bool, true, false, not, ◌||◌, Option, none, some, [], ◌∷◌, length, ◌==◌, if◌then◌else◌,
}
use wats.Base.Text.{Text, codes, text_eq}
use wats.Http.Signature.{Provider, Acquired, provided, unsupported, fails, is_blank}

-- `WebhookChallengeErrorCode`
pub data ErrorCode : Type 0 where
  invalid_expected_verify_token invalid_mode invalid_verify_token missing_challenge
        crypto_provider_unavailable :
      ErrorCode

-- `WebhookChallengeResult`, or a rejection with what another part throws.
pub data Challenge (X : Type 0) : Type 0 where
  echo : Text → Challenge X
  refused : ErrorCode → Challenge X
  rejects : X → Challenge X

-- `input.mode !== "subscribe"`, negated
abbrev pub is_subscribe : Option Text → Bool
is_subscribe none = false
is_subscribe (some mode) = text_eq mode (codes "subscribe")

-- `isNonEmptyString` as a test of what the challenge is.
pub answer : {X : Type 0} → Option Text → Challenge X
answer none = refused missing_challenge
answer (some []) = refused missing_challenge
answer (some (c ∷ s)) = echo (c ∷ s)

module _ {X : Type 0} (encode : Text → Text) where
  -- `safeCompareTokens`; `encode` is the platform's `TextEncoder`.
  pub safe_compare_tokens : Provider X → Text → Text → Bool
  safe_compare_tokens p expected received =
      if not (length (encode expected) == length (encode received))
      then false
      else p.timing_safe_equal (encode expected) (encode received)

  -- `typeof input.verifyToken !== "string" || !safeCompareTokens(…)`, negated
  pub is_token : Provider X → Text → Option Text → Bool
  is_token p expected none = false
  is_token p expected (some token) = safe_compare_tokens p expected token

  pub check_token : Provider X → Text → Option Text → Option Text → Challenge X
  check_token p expected token challenge =
      if not (is_token p expected token) then refused invalid_verify_token else answer challenge

  -- `input.crypto`, or what `acquireDefaultCryptoProvider` gives.
  pub check_provider : Acquired X → Text → Option Text → Option Text → Challenge X
  check_provider unsupported expected token challenge = refused crypto_provider_unavailable
  check_provider (fails x) expected token challenge = rejects x
  check_provider (provided p) expected token challenge = check_token p expected token challenge

  pub verify_webhook_challenge :
      Acquired X → Text → Option Text → Option Text → Option Text → Challenge X
  verify_webhook_challenge acquired expected mode token challenge =
      if is_blank expected
      then refused invalid_expected_verify_token
      else if not (is_subscribe mode)
      then refused invalid_mode
      else check_provider acquired expected token challenge
