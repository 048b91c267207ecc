-- ===== src/Http/Wrappers.antt =====
-- packages/http/src/adapters/fetchAdapter.ts and nodeAdapter.ts: the wrappers that read a request's
-- body under the adapter's limit before the adapter handles it.
pub mod Capped
mod Tests
use wats.Base.{
  ℕ, suc, ◌+◌, Bool, true, false, not, ◌&&◌, ◌||◌, Option, none, some, List, [], ◌∷◌, ◌++◌, length,
  ltb, ◌==◌, if◌then◌else◌,
}
use wats.Base.Text.{Text, codes, text_eq}
use wats.Http.AdapterConfig.{Config}
use wats.Http.Adapter.{
  Request, Body, no_body, binary, error_response, Platform, Handled, replies, handle_request,
}

-- What a body's stream gives before its end: bytes, a value without bytes, or a failure.
pub data Event : Type 0 where
  chunk : List ℕ → Event
  nothing failure : Event

-- `null`, the mark of a body over the limit, or the joined bytes.
pub data ReadBody : Type 0 where
  no_bytes over_limit : ReadBody
  joined : List ℕ → ReadBody

-- fetchAdapter.ts, the end of the reading of a stream
abbrev pub finish_read : List ℕ → ReadBody
finish_read [] = no_bytes
finish_read (b ∷ bs) = joined (b ∷ bs)

-- fetchAdapter.ts, the loop of `readBodyWithCap` over a stream; `read` are the bytes of the chunks so far.
pub read_stream : ℕ → List Event → List ℕ → ReadBody
read_stream most [] read = finish_read read
read_stream most (failure ∷ events) read = no_bytes
read_stream most (nothing ∷ events) read = read_stream most events read
read_stream most (chunk bytes ∷ events) read =
    let rest = read_stream most events (read ++ bytes) in
    if ltb most (length read + length bytes) then over_limit else rest

-- A request's body for the fetch handler: a stream with a reader, or else, as for a `null` body, what
-- `arrayBuffer()` gives: bytes, or a rejection.
pub data Source : Type 0 where
  streamed : List Event → Source
  buffered : Option (List ℕ) → Source

-- fetchAdapter.ts, `readBodyWithCap`
pub read_body_with_cap : ℕ → Source → ReadBody
read_body_with_cap most (streamed events) = read_stream most events []
read_body_with_cap most (buffered none) = no_bytes
read_body_with_cap most (buffered (some bytes)) =
    if ltb most (length bytes) then over_limit else joined bytes

-- nodeAdapter.ts, the end of `readBody`, for the count of the chunks.
abbrev pub finish_chunks : ℕ → List ℕ → ReadBody
finish_chunks count read = if count == 0 then no_bytes else joined read

-- nodeAdapter.ts, the listeners of `readBody`.
pub read_body : ℕ → List Event → ℕ → List ℕ → ReadBody
read_body most [] count read = finish_chunks count read
read_body most (failure ∷ events) count read = no_bytes
read_body most (nothing ∷ events) count read = read_body most events count read
read_body most (chunk bytes ∷ events) count read =
    let rest = read_body most events (suc count) (read ++ bytes) in
    if ltb most (length read + length bytes) then over_limit else rest

-- `method !== "GET" && method !== "HEAD"`
abbrev pub has_body : Text → Bool
has_body method = not (text_eq method (codes "GET")) && not (text_eq method (codes "HEAD"))

-- `declared !== null && declared > maxBodyBytes`
abbrev pub is_declared_over : ℕ → Option ℕ → Bool
is_declared_over most none = false
is_declared_over most (some n) = ltb most n

module _ {X U : Type 0} (p : Platform X U) where
  -- `oversized`
  abbrev pub oversized : Handled p
  oversized = replies p (error_response 413 "payload_too_large")

  pub handle_read : Config → Request → ReadBody → Handled p
  handle_read c r over_limit = oversized
  handle_read c r no_bytes = handle_request p c (record r { body = no_body })
  handle_read c r (joined bytes) = handle_request p c (record r { body = binary bytes })

  -- `createFetchWebhookHandler`: the request's own body is not looked at, `declared` is its
  -- Content-Length as `parseContentLength` reads it.
  pub fetch_handler : Config → Option ℕ → Source → Request → Handled p
  fetch_handler c declared source r =
      if not (has_body r.method)
      then handle_request p c (record r { body = no_body })
      else if is_declared_over c.max_body_bytes declared
      then oversized
      else handle_read c r (read_body_with_cap c.max_body_bytes source)

  -- `createNodeWebhookHandler`
  pub node_handler : Config → List Event → Request → Handled p
  node_handler c events r =
      if not (has_body r.method)
      then handle_request p c (record r { body = no_body })
      else handle_read c r (read_body c.max_body_bytes events 0 [])
