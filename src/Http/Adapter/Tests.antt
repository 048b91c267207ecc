-- ===== src/Http/Adapter/Tests.antt =====
-- A signed webhook with two updates, handled with a provider whose digests are constant.
use wats.Base.{
  ℕ, zero, suc, ◌≤◌, ◌≡◌, ◌≢◌, refl, inr, true, none, some, List, [], ◌∷◌, ◌++◌, All, length, arith,
}
use wats.Base.Json.{null}
use wats.Base.Text.{codes, text_eq, text_eq_iff}
use wats.Graph.RetryAfter.{is_space}
use wats.Http.AdapterConfig.{Config}
use wats.Http.Envelope.Bounded.{within}
use wats.Http.Signature as Sig
use wats.Http.Signature.{Provider, provided, signature_prefix}
use wats.Http.Signature.Hex.{hex_of, IsByte}
use wats.Http.Signature.Accepted.{IsReady, bytes-IsReady, validate_webhook_signature_iff}
use wats.Http.Adapter.{Request, binary, Platform, normalized, upper, handle_request}
use wats.Http.Adapter.Stages.{IsAccepted, Outcome, accepted, ignored}
use wats.Http.Adapter.Authentic.{handle_request-Outcome, handle_request-authentic}

abbrev repeat : ℕ → ℕ → List ℕ
repeat zero b = []
repeat (suc n) b = b ∷ repeat n b

repeat-IsByte : (n : ℕ) → All IsByte (repeat n 171)
repeat-IsByte zero = tt
repeat-IsByte (suc n) = (omega arith, repeat-IsByte n)

abbrev mac : List ℕ
mac = repeat 32 171

abbrev provider : Provider ℕ
provider = record { hmac_sha256 = λ key body. inr mac; timing_safe_equal = text_eq }

abbrev platform : Platform ℕ ℕ
platform = record {
  encode = λ s. s;
  decode = λ bytes. bytes;
  parse_json = λ s. some null;
  search_params = λ url. none;
  provider = provided provider;
  normalize = λ envelope. normalized (7 ∷ 8 ∷ []) 1;
  delivers = λ i update. true;
}

abbrev config : Config
config = record { verify_token = codes "t"; app_secret = codes "k"; max_body_bytes = 1048576 }

abbrev request : Request
request = record {
  method = codes "post";
  url = codes "/";
  signature_header = some (signature_prefix ++ hex_of mac);
  body = binary (codes "null");
}

ready : (bytes : List ℕ) → IsReady platform.encode provider config.app_secret (Sig.bytes bytes) mac
unfolding is_space
ready bytes =
    bytes-IsReady platform.encode provider config.app_secret bytes mac refl refl refl
      (repeat-IsByte 32) (λ a b h. text_eq_iff a b)

request-IsAccepted : IsAccepted platform config request (7 ∷ 8 ∷ []) 1
unfolding upper within
request-IsAccepted = record {
  posted = refl;
  bytes = codes "null";
  body = refl;
  size = omega arith;
  signed =
      (validate_webhook_signature_iff platform.encode provider config.app_secret
          (Sig.bytes (codes "null")) mac request.signature_header (ready (codes "null"))).1
        refl;
  envelope = null;
  parsed = refl;
  bounded = refl;
  updates = refl;
}

handle_request-Outcome_example :
    Outcome platform (IsAccepted platform config request) (handle_request platform config request)
handle_request-Outcome_example = handle_request-Outcome platform config request

sent : (handle_request platform config request).1 ≢ []
sent = elim handle_request-Outcome_example [
  | ignored nothing unsent never ↦ absurd (never (7 ∷ 8 ∷ []) 1 request-IsAccepted)
  | accepted us skipped a e ↦ λ nothing. ground (arith, a.updates, e, nothing)
]

handle_request-authentic_example :
    (bytes : List ℕ) × (request.body ≡ binary bytes)
    × (length bytes ≤ config.max_body_bytes)
    × (request.signature_header ≡ some (signature_prefix ++ hex_of mac))
handle_request-authentic_example =
    handle_request-authentic platform provider (λ bytes. mac) config request refl ready sent
