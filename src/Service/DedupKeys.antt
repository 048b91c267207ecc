-- ===== src/Service/DedupKeys.antt =====
-- packages/service/src/webhookIngress.ts and `extractDedupKey` of packages/service/src/index.ts: the
-- key under which an update counts as received, and the time of its event. Updates are parsed JSON
-- objects, whose members have different keys.
use Prim.Native.String
use Prim.Native.String.{String}
use wats.Base.{
  ℕ, ◌+◌, ◌-◌, ◌*◌, Bool, false, ◌||◌, Option, none, some, List, [], ◌∷◌, ltb, leb, if◌then◌else◌,
  ◌&&◌,
}
use wats.Base.Json.{Json, str, obj, Fields, end, field}
use wats.Base.Text.{Text, codes, text_eq, is_empty}
use wats.Service.Canonical.{bounded_canonical_json}
use wats.Service.JsonText.{stringify_strings}

-- A member of an object.
pub get_member : Text → Fields → Option Json
get_member key end = none
get_member key (field k v fs) = if text_eq k key then some v else get_member key fs

-- A value that is a string.
abbrev pub as_text : Option Json → Option Text
as_text (some (str t)) = some t
as_text v = none

abbrev pub non_empty : Option Text → Option Text
non_empty none = none
non_empty (some t) = if is_empty t then none else some t

abbrev pub or_unknown : Option Text → Text
or_unknown none = codes "_unknown"
or_unknown (some t) = t

abbrev pub text_member : String → Fields → Option Text
text_member key fs = as_text (get_member (codes key) fs)

-- `extractStableFields`
pub stable_fields : Fields → Fields
stable_fields end = end
stable_fields (field k v fs) =
    if text_eq k (codes "receivedAt") || text_eq k (codes "rawChange")
    then stable_fields fs
    else field k v (stable_fields fs)

module _ (sha256_hex : Text → String) where
  abbrev pub hashed : String → List Text → String
  hashed tag parts = String.◌++◌ tag (sha256_hex (stringify_strings parts))

  -- `messageDedupKey`, for the member `message`.
  pub message_dedup_key : Text → Text → Option Json → Option String
  message_dedup_key phone waba (some (obj message)) = elim (non_empty (text_member "id" message)) [
    | none ↦ none
    | some id ↦ some (hashed "msg:" (codes "msg" ∷ phone ∷ waba ∷ id ∷ []))
  ]
  message_dedup_key phone waba message = none

  -- `statusDedupKey`, for the member `status`.
  pub status_dedup_key : Text → Text → Option Json → Option String
  status_dedup_key phone waba (some (obj status)) = elim (non_empty (text_member "id" status)) [
    | none ↦ none
    | some id ↦ some (
        hashed "status:" (
          codes "status"
          ∷ phone
          ∷ waba
          ∷ id
          ∷ or_unknown (text_member "status" status)
          ∷ or_unknown (text_member "timestamp" status)
          ∷ []))
  ]
  status_dedup_key phone waba status = none

  -- `fallbackDedupKey`
  pub fallback_dedup_key : Text → Text → Fields → Option String
  fallback_dedup_key phone waba update =
      elim (bounded_canonical_json (obj (stable_fields update)) 0) [
        | none ↦ none
        | some canonical ↦ some (hashed "other:" (codes "other" ∷ phone ∷ waba ∷ canonical ∷ []))
      ]

  abbrev is_kind : Option Text → String → Bool
  is_kind none kind = false
  is_kind (some k) kind = text_eq k (codes kind)

  -- `extractDedupKey`, of an object.
  pub extract_fields_key : Fields → Option String
  extract_fields_key update =
      let kind = text_member "kind" update in
      let phone = or_unknown (non_empty (text_member "phoneNumberId" update)) in
      let waba = or_unknown (non_empty (text_member "wabaId" update)) in
      if is_kind kind "message"
      then message_dedup_key phone waba (get_member (codes "message") update)
      else if is_kind kind "status"
      then status_dedup_key phone waba (get_member (codes "status") update)
      else fallback_dedup_key phone waba update

  unfoldable pub extract_dedup_key : Json → Option String
  unfolding extract_fields_key message_dedup_key status_dedup_key get_member
  extract_dedup_key (obj update) = extract_fields_key update
  extract_dedup_key v = none

-- The number that digits write, after those that were read.
pub read_digits : Text → ℕ → Option ℕ
read_digits [] n = some n
read_digits (c ∷ s) n =
    let rest = read_digits s (n * 10 + (c - b'0')) in
    if leb b'0' c && leb c b'9' then rest else none

-- `FUTURE_TOLERANCE_MS`
abbrev pub future_tolerance_ms : ℕ
future_tolerance_ms = 3600000

abbrev pub clamp_seconds : Option ℕ → ℕ → Option ℕ
clamp_seconds none now = none
clamp_seconds (some seconds) now =
    if leb seconds 0
    then none
    else if ltb (now + future_tolerance_ms) (seconds * 1000)
    then none
    else some (if ltb now (seconds * 1000) then now else seconds * 1000)

-- `metaTimestampToIso` of a string, in milliseconds. Digits that are too many for a number of the
-- language are beyond the tolerance.
pub meta_timestamp_to_ms : Text → ℕ → Option ℕ
meta_timestamp_to_ms [] now = none
meta_timestamp_to_ms (c ∷ s) now = clamp_seconds (read_digits (c ∷ s) 0) now
