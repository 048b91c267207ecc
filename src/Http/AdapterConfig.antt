-- ===== src/Http/AdapterConfig.antt =====
-- packages/http/src/adapters/webhookAdapter.ts, `createWebhookAdapter`: the checks of its options.
use wats.Base.{ℕ, Bool, not, ◌||◌, Option, none, some, any, length, leb, ltb, ◌==◌, if◌then◌else◌}
use wats.Base.Result.{Result, ok, err, ◌>>=◌, ◌>>◌, guard}
use wats.Base.Text.{Text}
use wats.Core.Listener.{Value, given, is_typed}
use wats.Http.Signature.{is_blank}

-- `WebhookAdapterConfigErrorCode`
pub data ConfigError : Type 0 where
  bad_verify_token bad_app_secret bad_whatsapp bad_crypto_provider bad_max_body_bytes bad_logger :
      ConfigError

-- `WebhookAdapterConfig`, of an object: texts that are no string are `none`; of the facade, the
-- provider and the logger only whether their members are functions.
pub record Options : Type 0 where
  pub verify_token : Option Text
  pub app_secret : Option Text
  pub whatsapp : Bool
  pub crypto_provider : Value (Unit {0})
  pub max_body_bytes : Value ℕ
  pub logger : Value (Unit {0})

pub record Config : Type 0 where
  pub verify_token : Text
  pub app_secret : Text
  pub max_body_bytes : ℕ

abbrev pub default_max_body_bytes : ℕ
default_max_body_bytes = 1048576

abbrev pub max_verify_token_length : ℕ
max_verify_token_length = 512

-- NUL, LF, CR
pub has_control_chars : Text → Bool
has_control_chars s = any (λ c. c == 0 || c == 10 || c == 13) s

-- A text of no code units is blank.
pub validate_verify_token : Option Text → Result ConfigError Text
validate_verify_token none = err bad_verify_token
validate_verify_token (some s) = do
  guard (not (is_blank s)) bad_verify_token
  guard (not (ltb max_verify_token_length (length s))) bad_verify_token
  guard (not (has_control_chars s)) bad_verify_token
  ok s

pub validate_app_secret : Option Text → Result ConfigError Text
validate_app_secret none = err bad_app_secret
validate_app_secret (some s) = do
  guard (not (is_blank s)) bad_app_secret
  guard (not (has_control_chars s)) bad_app_secret
  ok s

pub validate_max_body_bytes : Value ℕ → Result ConfigError ℕ
validate_max_body_bytes Value.undefined = ok default_max_body_bytes
validate_max_body_bytes Value.wrong = err bad_max_body_bytes
validate_max_body_bytes (given n) = if leb 1 n then ok n else err bad_max_body_bytes

-- `createWebhookAdapter`
pub create_webhook_adapter : Options → Result ConfigError Config
create_webhook_adapter o = do
  token ← validate_verify_token o.verify_token
  secret ← validate_app_secret o.app_secret
  guard o.whatsapp bad_whatsapp
  guard (is_typed o.crypto_provider) bad_crypto_provider
  most ← validate_max_body_bytes o.max_body_bytes
  guard (is_typed o.logger) bad_logger
  ok (record { verify_token = token; app_secret = secret; max_body_bytes = most })
