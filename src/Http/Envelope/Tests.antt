-- ===== src/Http/Envelope/Tests.antt =====
-- A small envelope is walked.
use wats.Base.{◌≡◌, some}
use wats.Base.Json.{Json, null, arr, nil, cons}
use wats.Http.Envelope.{is_bounded_envelope}
use wats.Http.Envelope.Bounded.{within, is_bounded_envelope-within}

abbrev small : Json
small = arr (cons (arr nil) (cons null nil))

is_bounded_envelope-within_example : is_bounded_envelope small ≡ some (within 128 small 0)
is_bounded_envelope-within_example = is_bounded_envelope-within small
