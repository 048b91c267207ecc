-- ===== src/Http/Wrappers/Capped.antt =====
-- Reading under the limit makes no difference to the answer.
use wats.Base.{
  ℕ, suc, ◌≡◌, ◌≢◌, ◌∙◌, refl, sym, ap, true, false, Option, none, some, List, [], ◌∷◌, ◌++◌,
  append-nil, append_assoc, length, length-append, arith, ltb, if◌then◌else◌, Bool-cases, inl, inr,
}
use wats.Base.Text.{Text, codes, text_eq_iff}
use wats.Http.AdapterConfig.{Config}
use wats.Http.Adapter.{Request, no_body, binary, upper, Platform, handle_request}
use wats.Http.Adapter.Authentic.{handle_request-over}
use wats.Http.Wrappers.{
  Source, streamed, buffered, read_body_with_cap, Event, chunk, nothing, failure, ReadBody,
  over_limit, joined, finish_read, finish_chunks, read_stream, read_body, has_body, oversized,
  handle_read, is_declared_over, fetch_handler, node_handler,
}

-- All bytes of a stream.
abbrev pub whole : List Event → List ℕ
whole [] = []
whole (chunk bytes ∷ events) = bytes ++ whole events
whole (nothing ∷ events) = whole events
whole (failure ∷ events) = whole events

-- No chunk is empty, and the stream does not fail.
abbrev pub IsSteady : List Event → Type 0
IsSteady [] = Unit
IsSteady (chunk bytes ∷ events) = (bytes ≢ []) × IsSteady events
IsSteady (nothing ∷ events) = IsSteady events
IsSteady (failure ∷ events) = ⊥

-- What is read of all bytes at once.
abbrev at_once : ℕ → List ℕ → ReadBody
at_once most bytes = if ltb most (length bytes) then over_limit else finish_read bytes

read_stream-whole :
    (most : ℕ) (events : List Event) (read : List ℕ)
    → IsSteady events
    → ltb most (length read) ≡ false
    → read_stream most events read ≡ at_once most (read ++ whole events)
unfolding read_stream
read_stream-whole most [] read h small = rw (append-nil, small) refl
read_stream-whole most (failure ∷ events) read h small = absurd h
read_stream-whole most (nothing ∷ events) read h small = read_stream-whole most events read h small
read_stream-whole most (chunk bytes ∷ events) read h small = ground (
  arith,
  read_stream-whole most events (read ++ bytes) (h.1),
  append_assoc read bytes (whole events),
  length-append read bytes,
  length-append (read ++ bytes) (whole events),
)

append-ne-nil :
    (read bytes : List ℕ) → bytes ≢ [] → finish_read (read ++ bytes) ≡ joined (read ++ bytes)
append-ne-nil [] [] h = absurd (h refl)
append-ne-nil [] (b ∷ bytes) h = refl
append-ne-nil (a ∷ read) bytes h = refl

read_body-read_stream :
    (most : ℕ) (events : List Event) (count : ℕ) (read : List ℕ)
    → IsSteady events
    → finish_chunks count read ≡ finish_read read
    → read_body most events count read ≡ read_stream most events read
unfolding read_body read_stream
read_body-read_stream most [] count read h e = e
read_body-read_stream most (failure ∷ events) count read h e = refl
read_body-read_stream most (nothing ∷ events) count read h e =
    read_body-read_stream most events count read h e
read_body-read_stream most (chunk bytes ∷ events) count read h e = ground (
  arith,
  read_body-read_stream most events (suc count) (read ++ bytes) (h.1),
  append-ne-nil read bytes (h.0),
)

is_declared_over-true :
    (most : ℕ) (declared : Option ℕ) (n : ℕ)
    → ((k : ℕ) → declared ≡ some k → k ≡ n)
    → is_declared_over most declared ≡ true
    → ltb most n ≡ true
is_declared_over-true most none n h over = cc
is_declared_over-true most (some k) n h over = rw (← h k refl) over

post-ne-get : (method : Text) → upper method ≡ codes "POST" → method ≢ codes "GET"
unfolding upper
post-ne-get method e f = absurd (differ (sym (ap upper f) ∙ e))
  where
    differ : codes "GET" ≡ codes "POST" → ⊥
    differ h = cc ((text_eq_iff (codes "GET") (codes "POST")).1 h)

post-ne-head : (method : Text) → upper method ≡ codes "POST" → method ≢ codes "HEAD"
unfolding upper
post-ne-head method e f = absurd (differ (sym (ap upper f) ∙ e))
  where
    differ : codes "HEAD" ≡ codes "POST" → ⊥
    differ h = cc ((text_eq_iff (codes "HEAD") (codes "POST")).1 h)

post-has_body : (method : Text) → upper method ≡ codes "POST" → has_body method ≡ true
post-has_body method h = ground (
  arith,
  text_eq_iff method (codes "GET"),
  text_eq_iff method (codes "HEAD"),
  post-ne-get method h,
  post-ne-head method h,
)

-- The body of a request from all bytes of its stream: an empty stream gives no body.
abbrev pub with_whole : Request → List ℕ → Request
with_whole r [] = record r { body = no_body }
with_whole r (b ∷ bs) = record r { body = binary (b ∷ bs) }

-- The body of a request from all bytes of its source.
abbrev pub with_source : Request → Source → Request
with_source r (streamed events) = with_whole r (whole events)
with_source r (buffered none) = record r { body = no_body }
with_source r (buffered (some bytes)) = record r { body = binary bytes }

abbrev pub IsSteadySource : Source → Type 0
IsSteadySource (streamed events) = IsSteady events
IsSteadySource (buffered bytes) = Unit

-- The count of the bytes of a source.
abbrev pub size : Source → ℕ
size (streamed events) = length (whole events)
size (buffered none) = 0
size (buffered (some bytes)) = length bytes

module _ {X U : Type 0} (p : Platform X U) where
  handle_read-at_once :
      (c : Config) (r : Request) (bytes : List ℕ)
      → upper r.method ≡ codes "POST"
      → handle_read p c r (at_once c.max_body_bytes bytes) ≡ handle_request p c (with_whole r bytes)
  unfolding handle_read
  handle_read-at_once c r [] post = ground arith
  handle_read-at_once c r (b ∷ bs) post =
      elim (Bool-cases (ltb c.max_body_bytes (length (b ∷ bs)))) [
        | inl big ↦ rw big (
            sym (
              handle_request-over p c (record r { body = binary (b ∷ bs) }) (b ∷ bs) post refl big))
        | inr small ↦ rw small refl
      ]

  handle_read-read_stream :
      (c : Config) (events : List Event) (r : Request)
      → upper r.method ≡ codes "POST"
      → IsSteady events
      → handle_read p c r (read_stream c.max_body_bytes events [])
        ≡ handle_request p c (with_whole r (whole events))
  handle_read-read_stream c events r post steady =
      ap (handle_read p c r) (read_stream-whole c.max_body_bytes events [] steady (ground arith))
      ∙ handle_read-at_once c r (whole events) post

  handle_read-source :
      (c : Config) (source : Source) (r : Request)
      → upper r.method ≡ codes "POST"
      → IsSteadySource source
      → handle_read p c r (read_body_with_cap c.max_body_bytes source)
        ≡ handle_request p c (with_source r source)
  unfolding read_body_with_cap handle_read
  handle_read-source c (streamed events) r post steady =
      handle_read-read_stream c events r post steady
  handle_read-source c (buffered none) r post steady = refl
  handle_read-source c (buffered (some bytes)) r post steady =
      elim (Bool-cases (ltb c.max_body_bytes (length bytes))) [
        | inl big ↦
            rw big
              (sym (handle_request-over p c (record r { body = binary bytes }) bytes post refl big))
        | inr small ↦ rw small refl
      ]

  oversized-source :
      (c : Config) (declared : Option ℕ) (source : Source) (r : Request)
      → upper r.method ≡ codes "POST"
      → ((n : ℕ) → declared ≡ some n → n ≡ size source)
      → is_declared_over c.max_body_bytes declared ≡ true
      → oversized p ≡ handle_request p c (with_source r source)
  unfolding handle_read
  oversized-source c declared source r post honest h =
      over source (is_declared_over-true c.max_body_bytes declared (size source) honest h)
    where
      over :
          (source : Source)
          → ltb c.max_body_bytes (size source) ≡ true
          → oversized p ≡ handle_request p c (with_source r source)
      over (streamed events) big = rw big at (handle_read-at_once c r (whole events) post)
      over (buffered none) big = absurd (ground (arith, big))
      over (buffered (some bytes)) big =
          sym (handle_request-over p c (record r { body = binary bytes }) bytes post refl big)

  -- For a POST whose streams do not fail and have no empty chunk, and whose declared length, if there is
  -- one, is that of the body: both wrappers, which stop reading once the limit is passed, answer
  -- and dispatch what the adapter would if it were handed the whole body. A stream without bytes is
  -- no body, and so is a body that cannot be buffered, but a buffered body without bytes, as that
  -- of a request with a `null` body, is one of no bytes.
  pub fetch_handler-node_handler :
      (c : Config) (declared : Option ℕ) (source : Source) (events : List Event) (r : Request)
      → upper r.method ≡ codes "POST"
      → IsSteadySource source
      → IsSteady events
      → ((n : ℕ) → declared ≡ some n → n ≡ size source)
      → (fetch_handler p c declared source r ≡ handle_request p c (with_source r source))
        × (node_handler p c events r ≡ handle_request p c (with_whole r (whole events)))
  unfolding fetch_handler node_handler
  fetch_handler-node_handler c declared source events r post steady steady_events honest =
      rw (post-has_body r.method post) (fetched, nodes)
    where
      nodes :
          handle_read p c r (read_body c.max_body_bytes events 0 [])
          ≡ handle_request p c (with_whole r (whole events))
      nodes =
          ap (handle_read p c r)
            (read_body-read_stream c.max_body_bytes events 0 [] steady_events refl)
          ∙ handle_read-read_stream c events r post steady_events

      fetched :
          (if is_declared_over c.max_body_bytes declared
            then oversized p
            else handle_read p c r (read_body_with_cap c.max_body_bytes source))
          ≡ handle_request p c (with_source r source)
      fetched = elim (Bool-cases (is_declared_over c.max_body_bytes declared)) [
        | inl h ↦ rw h (oversized-source c declared source r post honest h)
        | inr h ↦ rw h (handle_read-source c source r post steady)
      ]
