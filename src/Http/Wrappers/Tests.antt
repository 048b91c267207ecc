-- ===== src/Http/Wrappers/Tests.antt =====
-- A body that comes in two chunks, with a declared length.
use wats.Base.{ℕ, ◌≡◌, refl, true, Option, none, some, List, [], ◌∷◌, length, arith}
use wats.Base.Json.{null}
use wats.Base.Text.{codes}
use wats.Http.AdapterConfig.{Config}
use wats.Http.Signature.{unsupported}
use wats.Http.Adapter.{
  Request, no_body, Platform, normalized, upper, error_response, replies, handle_dispatch,
  handle_signed, handle_request,
}
use wats.Http.Wrappers.{
  Event, chunk, nothing, streamed, buffered, read_stream, read_body_with_cap, handle_read,
  fetch_handler, node_handler,
}
use wats.Http.Wrappers.Capped.{whole, IsSteady, with_whole, with_source, fetch_handler-node_handler}

abbrev platform : Platform ℕ ℕ
platform = record {
  encode = λ s. s;
  decode = λ bytes. bytes;
  parse_json = λ s. some null;
  search_params = λ url. none;
  provider = unsupported;
  normalize = λ envelope. normalized [] 0;
  delivers = λ i update. true;
}

abbrev config : Config
config = record { verify_token = codes "t"; app_secret = codes "k"; max_body_bytes = 4 }

abbrev request : Request
request = record { method = codes "POST"; url = codes "/"; signature_header = none; body = no_body }

abbrev events : List Event
events = chunk (1 ∷ 2 ∷ []) ∷ nothing ∷ chunk (3 ∷ []) ∷ []

posted : upper request.method ≡ codes "POST"
unfolding upper
posted = refl

honest : (n : ℕ) → ◌≡◌ {A = Option ℕ} (some 3) (some n) → n ≡ length (whole events)
honest n e = ground arith

steady : IsSteady events
steady = (ground arith, (ground arith, tt))

fetch_handler-node_handler_example :
    (fetch_handler platform config (some 3) (streamed events) request
      ≡ handle_request platform config (with_source request (streamed events)))
    × (node_handler platform config events request
        ≡ handle_request platform config (with_whole request (whole events)))
fetch_handler-node_handler_example =
    fetch_handler-node_handler platform config (some 3) (streamed events) events request posted
      steady steady honest

-- A `null` body is one of no bytes, which the adapter asks for a signature; an empty stream is none.
null_body :
    fetch_handler platform config none (buffered (some [])) request
    ≡ replies platform (error_response 401 "missing_signature")
unfolding fetch_handler read_body_with_cap handle_read handle_request upper handle_dispatch
    handle_signed
null_body = refl

empty_stream :
    fetch_handler platform config none (streamed []) request
    ≡ replies platform (error_response 400 "missing_body")
unfolding fetch_handler read_body_with_cap read_stream handle_read handle_request upper
    handle_dispatch
empty_stream = refl
