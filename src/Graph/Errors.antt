-- ===== src/Graph/Errors.antt =====
-- packages/graph/src/errors.ts: which error a failed Graph response becomes. A registered factory
-- is a function of its context, whose result can be of any subclass.
pub mod Guard
mod Tests
use Prim.Native.String.{String}
use text.Mathlib.Text.{◌==◌ as str_eq}
use wats.Base.{
  ℕ, Bool, true, false, ◌&&◌, ◌||◌, Option, none, some, List, [], ◌∷◌, any, ltb, leb, ◌==◌,
  if◌then◌else◌,
}
use wats.Graph.RetryAfter.{trim}
use wats.Graph.ErrorRegistry.{
  Number, whole, not_number, negative, fractional, not_finite, Entry, Registry,
  resolve_registered_error,
}

-- `GraphApiErrorPayload`. A field of another type than its own is `none`; a code that is no number,
-- `not_number`.
pub record Payload : Type 0 where
  pub message : Option String
  pub error_type : Option String
  pub code : Option Number
  pub error_subcode : Option Number
  pub fbtrace_id : Option String

pub data Classification : Type 0 where
  client_error server_error unknown : Classification

-- `GraphApiError` and its subclasses, as far as `instanceof` asks for them.
pub data Class : Type 0 where
  api auth rate_limit : Class
  registered : ℕ → Class

pub record ApiError : Type 0 where
  pub class : Class
  pub message : String
  pub status : ℕ
  pub classification : Classification
  pub error_type : Option String
  pub code : Option Number
  pub error_subcode : Option Number
  pub fbtrace_id : Option String
  pub payload : Option Payload
  pub retry_after : Option (List ℕ)

abbrev pub is_4xx : ℕ → Bool
is_4xx status = leb 400 status && ltb status 500

-- `classifyStatus`
pub classify_status : ℕ → Classification
classify_status status =
    if is_4xx status
    then client_error
    else if leb 500 status && ltb status 600
    then server_error
    else unknown

-- What `Headers.get` gives for `retry-after`, or `none` if it is absent or throws.
pub read_retry_after_header : Option (List ℕ) → Option (List ℕ)
read_retry_after_header none = none
read_retry_after_header (some raw) = elim (trim raw) [ [] ↦ none | c ∷ s ↦ some (c ∷ s) ]

abbrev pub payload_field {ℓ} : {A : Type ℓ} → (Payload → Option A) → Option Payload → Option A
payload_field field none = none
payload_field field (some p) = field p

-- The constructors of `GraphApiError`, `GraphAuthError` and `GraphRateLimitError`.
pub construct : Class → String → ℕ → Option Payload → Option (List ℕ) → ApiError
construct class message status payload retry_after = record {
  class = class;
  message = message;
  status = status;
  classification = classify_status status;
  error_type = payload_field (λ p. p.error_type) payload;
  code = payload_field (λ p. p.code) payload;
  error_subcode = payload_field (λ p. p.error_subcode) payload;
  fbtrace_id = payload_field (λ p. p.fbtrace_id) payload;
  payload = payload;
  retry_after = retry_after;
}

abbrev pub rate_limit_codes : List ℕ
rate_limit_codes = 4 ∷ 80007 ∷ 130429 ∷ 131048 ∷ 131056 ∷ []

abbrev pub has_type : String → Option Payload → Bool
has_type name none = false
has_type name (some p) = elim p.error_type [ none ↦ false | some t ↦ str_eq t name ]

-- `typeof code === "number" && test(code)`, for a test that only whole numbers pass
abbrev pub code_passes : (ℕ → Bool) → Option Number → Bool
code_passes test (some (whole n)) = test n
code_passes test _ = false

abbrev pub payload_code : Option Payload → Option Number
payload_code payload = payload_field (λ p. p.code) payload

pub is_auth_classification : ℕ → Option Payload → Bool
is_auth_classification status payload =
    status == 401
    || status == 403
    || (has_type "OAuthException" payload && is_4xx status)
    || (code_passes (λ n. n == 190) (payload_code payload) && is_4xx status)

pub is_rate_limit_code : ℕ → Bool
is_rate_limit_code n = any (λ m. m == n) rate_limit_codes

pub is_rate_limit_classification : ℕ → Option Payload → Bool
is_rate_limit_classification status payload =
    status == 429 || (is_4xx status && code_passes is_rate_limit_code (payload_code payload))

pub record FactoryContext : Type 0 where
  pub payload : Option Payload
  pub status : ℕ
  pub headers : Option (List ℕ)
  pub request_url : String

abbrev pub Factory : Type 0
Factory = FactoryContext → ApiError

-- A registered entry is found by a code that is a whole number, as all codes of entries are.
pub resolve_number : Registry Factory → Option Number → Option Number → Option (Entry Factory)
resolve_number r (some (whole code)) (some (whole subcode)) =
    resolve_registered_error r code (some subcode)
resolve_number r (some (whole code)) _ = resolve_registered_error r code none
resolve_number r _ _ = none

-- An instance of a guarded class whose classification the response contradicts becomes the generic
-- error.
pub checked_instance : ℕ → Option Payload → ApiError → ApiError → ApiError
checked_instance status payload generic x = elim x.class [
  | auth ↦ if is_auth_classification status payload then x else generic
  | rate_limit ↦ if is_rate_limit_classification status payload then x else generic
  | api ↦ x
  | registered n ↦ x
]

-- The parameters of `createGraphApiError`; `headers` stands for their Retry-After value.
pub record Params : Type 0 where
  pub status : ℕ
  pub payload : Option Payload
  pub fallback_message : Option String
  pub classify : Option Bool
  pub headers : Option (List ℕ)
  pub request_url : Option String

abbrev pub or_default {ℓ} : {A : Type ℓ} → Option A → A → A
or_default none d = d
or_default (some x) d = x

pub message_of : Params → String
message_of p =
    or_default (payload_field (λ x. x.message) p.payload)
      (or_default p.fallback_message "Graph API request failed")

pub construct_with : Class → Params → ApiError
construct_with class p =
    construct class (message_of p) p.status p.payload (read_retry_after_header p.headers)

-- The taxonomy of a code that is not registered.
pub classified_error : Params → ApiError
classified_error p =
    if is_auth_classification p.status p.payload
    then construct_with auth p
    else if is_rate_limit_classification p.status p.payload
    then construct_with rate_limit p
    else construct_with api p

pub factory_context : Params → FactoryContext
factory_context p = record {
  payload = p.payload;
  status = p.status;
  headers = p.headers;
  request_url = or_default p.request_url "";
}

-- The error for the entry that is found.
pub error_for : Params → Option (Entry Factory) → ApiError
error_for p none = classified_error p
error_for p (some entry) =
    checked_instance p.status p.payload (construct_with api p) (entry.factory (factory_context p))

pub create_graph_api_error : Registry Factory → Params → ApiError
create_graph_api_error r p =
    if or_default p.classify true
    then error_for p
        (resolve_number r (payload_code p.payload) (payload_field (λ x. x.error_subcode) p.payload))
    else construct_with api p
