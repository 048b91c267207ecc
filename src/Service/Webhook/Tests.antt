-- ===== src/Service/Webhook/Tests.antt =====
-- A signed webhook that brings one message, twice.
use Prim.Native.String.{String}
use wats.Base.{
  ℕ, zero, suc, ◌≤◌, ◌≡◌, ◌∙◌, refl, ap, inr, true, false, none, some, List, [], ◌∷◌, ◌++◌, any,
  All, arith,
}
use wats.Base.Json.{Json, null, str, obj, end, field}
use wats.Base.Text.{Text, codes, text_eq, text_eq_iff}
use wats.Graph.RetryAfter.{is_space}
use wats.Http.AdapterConfig.{Config}
use wats.Http.Envelope.Bounded.{within}
use wats.Http.Signature as Sig
use wats.Http.Signature.{Provider, provided, signature_prefix}
use wats.Http.Signature.Hex.{hex_of, IsByte}
use wats.Http.Signature.Accepted.{IsReady, bytes-IsReady, validate_webhook_signature_iff}
use wats.Http.Adapter.{
  Request, Response, summary, no_body, binary, Platform, normalized, upper, delivered,
}
use wats.Http.Adapter.Stages.{IsAccepted}
use wats.Http.Adapter.Authentic.{handle_request-accepts}
use wats.Http.Wrappers.{chunk, streamed, fetch_handler}
use wats.Http.Wrappers.Capped.{fetch_handler-node_handler}
use wats.Persistence.Validation.{is_record_string}
use wats.Persistence.Table.{find, append}
use wats.Persistence.WebhookEvents.{insert_event, record_webhook_event}
use wats.Persistence.WebhookEvents.Fresh.{fresh}
use wats.Service.Canonical.{is_within_depth_limit}
use wats.Service.DedupKeys.{extract_dedup_key}
use wats.Service.Webhook.{
  State, Call, staging, sort_recorded, sort_update, sort_updates, respond, handle_sorted,
  handle_staged, handle_webhook,
}
use wats.Service.Webhook.Sorting.{has_key, count}
use wats.Service.Webhook.Once.{
  dispatched_in, dispatched_in-at-most-once, staged, handle_webhook-exactly-once,
}

abbrev repeat : ℕ → ℕ → List ℕ
repeat zero b = []
repeat (suc n) b = b ∷ repeat n b

repeat-IsByte : (n : ℕ) → All IsByte (repeat n 171)
repeat-IsByte zero = tt
repeat-IsByte (suc n) = (omega arith, repeat-IsByte n)

abbrev mac : List ℕ
mac = repeat 32 171

abbrev provider : Provider ℕ
provider = record { hmac_sha256 = λ key body. inr mac; timing_safe_equal = text_eq }

abbrev update : Json
update = obj (
    field (codes "kind") (str (codes "message"))
      (field (codes "message") (obj (field (codes "id") (str (codes "m")) end)) end))

abbrev platform : Platform ℕ Json
platform = record {
  encode = λ s. s;
  decode = λ bytes. bytes;
  parse_json = λ s. some null;
  search_params = λ url. none;
  provider = provided provider;
  normalize = λ envelope. normalized (update ∷ []) 0;
  delivers = λ i u. false;
}

abbrev config : Config
config = record { verify_token = codes "t"; app_secret = codes "k"; max_body_bytes = 1048576 }

abbrev request : Request
request = record {
  method = codes "POST";
  url = codes "/";
  signature_header = some (signature_prefix ++ hex_of mac);
  body = no_body;
}

abbrev call : Call
call = record {
  request = request;
  declared = none;
  source = streamed (chunk (codes "null") ∷ []);
  now = 1000;
  event_fault = λ i. false;
  message_fault = λ i. false;
  row_id = λ i. "row";
}

abbrev empty : State
empty = record {
  events = record { closed = false; rows = [] };
  messages = record { closed = false; messages = []; events = [] };
}

abbrev sha256_hex : Text → String
sha256_hex text = "h"

abbrev read : Text → String
read text = "m"

abbrev whole_request : Request
whole_request = record request { body = binary (codes "null") }

ready : (bytes : List ℕ) → IsReady platform.encode provider config.app_secret (Sig.bytes bytes) mac
unfolding is_space
ready bytes =
    bytes-IsReady platform.encode provider config.app_secret bytes mac refl refl refl
      (repeat-IsByte 32) (λ a b h. text_eq_iff a b)

posted : upper request.method ≡ codes "POST"
unfolding upper
posted = refl

request-IsAccepted :
    IsAccepted (staging platform sha256_hex read) config whole_request (update ∷ []) 0
unfolding within
request-IsAccepted = record {
  posted = posted;
  bytes = codes "null";
  body = refl;
  size = omega arith;
  signed =
      (validate_webhook_signature_iff platform.encode provider config.app_secret
          (Sig.bytes (codes "null")) mac request.signature_header (ready (codes "null"))).1
        refl;
  envelope = null;
  parsed = refl;
  bounded = refl;
  updates = refl;
}

fetched :
    fetch_handler (staging platform sha256_hex read) config none call.source request
    ≡ (summary 1 1 0, update ∷ [])
fetched =
    (fetch_handler-node_handler (staging platform sha256_hex read) config none call.source []
      request posted (ground arith, tt) tt (λ n e. cc)).0
    ∙ handle_request-accepts (staging platform sha256_hex read) config whole_request (update ∷ []) 0
        request-IsAccepted
    ∙ unfold delivered in refl

dispatched_in-at-most-once_example :
    count sha256_hex "msg:h" (
      dispatched_in sha256_hex read "msg:h" config empty ((platform, call) ∷ (platform, call) ∷ []))
    ≤ fresh "msg:h" empty.events
dispatched_in-at-most-once_example =
    dispatched_in-at-most-once sha256_hex read "msg:h" config empty
      ((platform, call) ∷ (platform, call) ∷ [])

answered : (handle_webhook platform sha256_hex read config empty call).response ≡ summary 1 0 0
unfolding handle_webhook handle_staged handle_sorted respond sort_updates sort_update sort_recorded
    is_within_depth_limit extract_dedup_key record_webhook_event insert_event find append
    is_record_string delivered
answered = rw fetched refl

met : any (has_key sha256_hex "msg:h") (staged sha256_hex read "msg:h" config platform call) ≡ true
unfolding extract_dedup_key staged
met = ap (λ (h : Response × List Json). any (has_key sha256_hex "msg:h") (h.1)) fetched

handle_webhook-exactly-once_example :
    count sha256_hex "msg:h" (handle_webhook platform sha256_hex read config empty call).dispatched
    ≡ fresh "msg:h" empty.events
handle_webhook-exactly-once_example =
    handle_webhook-exactly-once sha256_hex read "msg:h" config platform empty call 1 0 0 answered
      met
