-- ===== src/Http/Signature.antt =====
-- packages/http/src/signature.ts, `validateWebhookSignature`: the signature header of a webhook
-- against the keyed digest of its body. Texts are lists of UTF-16 code units and bodies lists of
-- bytes. The crypto provider is an interface that the caller injects.
pub mod Hex
pub mod Accepted
mod Tests
use wats.Base.{
  ℕ, ◌+◌, ◌-◌, ◌*◌, Bool, true, false, not, ◌&&◌, ◌||◌, Option, none, some, List, [], ◌∷◌, any,
  length, leb, ◌==◌, ◌⊎◌, inl, inr, if◌then◌else◌,
}
use wats.Graph.RetryAfter.{is_space}

-- `SignatureValidationErrorCode`
pub data ErrorCode : Type 0 where
  invalid_app_secret invalid_raw_body missing_signature invalid_signature_format signature_mismatch
        crypto_provider_unavailable :
      ErrorCode

-- `SignatureValidationResult`, or a rejection with what another part throws.
pub data Validation (X : Type 0) : Type 0 where
  valid : Validation X
  invalid : ErrorCode → Validation X
  rejects : X → Validation X

-- `CryptoProvider`, as far as it is used. The digest may reject.
pub record Provider (X : Type 0) : Type 0 where
  pub hmac_sha256 : List ℕ → List ℕ → X ⊎ List ℕ
  pub timing_safe_equal : List ℕ → List ℕ → Bool

-- What acquiring the default provider gives: it, an `UnsupportedCapabilityError`, or another one.
pub data Acquired (X : Type 0) : Type 0 where
  provided : Provider X → Acquired X
  unsupported : Acquired X
  fails : X → Acquired X

-- A raw body: a text, the bytes of a buffer or of a view, a view of a shared buffer, a view of a
-- detached buffer, or another value.
pub data RawBody : Type 0 where
  text bytes : List ℕ → RawBody
  shared_view detached other : RawBody

-- `isAcceptableRawBody`
pub is_acceptable_raw_body : RawBody → Bool
is_acceptable_raw_body (text s) = true
is_acceptable_raw_body (bytes b) = true
is_acceptable_raw_body detached = true
is_acceptable_raw_body shared_view = false
is_acceptable_raw_body other = false

-- `toBodyBytes`; `encode` is the platform's `TextEncoder`.
pub to_body_bytes : (List ℕ → List ℕ) → RawBody → Option (List ℕ)
to_body_bytes encode (text s) = some (encode s)
to_body_bytes encode (bytes b) = some b
to_body_bytes encode shared_view = none
to_body_bytes encode detached = none
to_body_bytes encode other = none

-- `SIGNATURE_PREFIX`
abbrev pub signature_prefix : List ℕ
signature_prefix = b's' ∷ b'h' ∷ b'a' ∷ b'2' ∷ b'5' ∷ b'6' ∷ b'=' ∷ []

-- What follows a prefix of a text.
pub after_prefix : List ℕ → List ℕ → Option (List ℕ)
after_prefix [] s = some s
after_prefix (p ∷ ps) [] = none
after_prefix (p ∷ ps) (c ∷ s) = let rest = after_prefix ps s in if p == c then rest else none

-- `[a-f0-9]`
unfoldable pub is_hex : ℕ → Bool
is_hex c = (leb b'0' c && leb c b'9') || (leb b'a' c && leb c b'f')

abbrev pub is_hex_text : List ℕ → Bool
is_hex_text s = not (any (λ c. not (is_hex c)) s)

-- `[a-f0-9]{64}`, to the end
pub digits_of : Option (List ℕ) → Option (List ℕ)
digits_of none = none
digits_of (some s) = if length s == 64 && is_hex_text s then some s else none

-- The digits of `SIGNATURE_HEADER_PATTERN`, where a header matches it.
pub header_digits : List ℕ → Option (List ℕ)
header_digits header = digits_of (after_prefix signature_prefix header)

-- `parseInt` of a digit
unfoldable pub digit_value : ℕ → ℕ
digit_value c = if leb c b'9' then c - b'0' else c - 87

-- The bytes of pairs of digits, or `none` at a pair that is not one.
pub hex_pairs : List ℕ → Option (List ℕ)
hex_pairs [] = some []
hex_pairs (a ∷ []) = some []
hex_pairs (a ∷ b ∷ s) = elim (hex_pairs s) [
  | none ↦ none
  | some rest ↦
      if is_hex a && is_hex b then some ((digit_value a * 16 + digit_value b) ∷ rest) else none
]

-- `hexToBytes`
pub hex_to_bytes : List ℕ → List ℕ
hex_to_bytes s = elim (hex_pairs s) [ none ↦ [] | some out ↦ out ]

abbrev pub is_blank : List ℕ → Bool
is_blank s = not (any (λ c. not (is_space c)) s)

module _ {X : Type 0} (encode : List ℕ → List ℕ) where
  -- The comparison of the digests.
  pub compare_digests : Provider X → List ℕ → List ℕ → Validation X
  compare_digests p computed received =
      if not (length computed == length received) || not (p.timing_safe_equal computed received)
      then invalid signature_mismatch
      else valid

  pub check_digest : Provider X → List ℕ → List ℕ → List ℕ → Validation X
  check_digest p secret body digits = elim (p.hmac_sha256 secret body) [
    | inl x ↦ rejects x
    | inr computed ↦ compare_digests p computed (hex_to_bytes digits)
  ]

  -- From the body's bytes on.
  pub check_body : Provider X → List ℕ → Option (List ℕ) → List ℕ → Validation X
  check_body p secret none digits = invalid invalid_raw_body
  check_body p secret (some body) digits = check_digest p secret body digits

  -- `input.crypto`, or the default provider.
  pub check_signature : Acquired X → List ℕ → RawBody → List ℕ → Validation X
  check_signature unsupported secret body digits = invalid crypto_provider_unavailable
  check_signature (fails x) secret body digits = rejects x
  check_signature (provided p) secret body digits =
      check_body p secret (to_body_bytes encode body) digits

  pub check_header : Acquired X → List ℕ → RawBody → List ℕ → Validation X
  check_header acquired secret body header = elim (header_digits header) [
    | none ↦ invalid invalid_signature_format
    | some digits ↦ check_signature acquired secret body digits
  ]

  abbrev pub header_or_missing : Acquired X → List ℕ → RawBody → Option (List ℕ) → Validation X
  header_or_missing acquired secret body none = invalid missing_signature
  header_or_missing acquired secret body (some []) = invalid missing_signature
  header_or_missing acquired secret body (some (c ∷ s)) = check_header acquired secret body (c ∷ s)

  -- `validateWebhookSignature`; values that are no text are `none`.
  pub validate_webhook_signature :
      Acquired X → Option (List ℕ) → RawBody → Option (List ℕ) → Validation X
  validate_webhook_signature acquired none body header = invalid invalid_app_secret
  validate_webhook_signature acquired (some secret) body header =
      if is_blank secret
      then invalid invalid_app_secret
      else if not (is_acceptable_raw_body body)
      then invalid invalid_raw_body
      else header_or_missing acquired secret body header
