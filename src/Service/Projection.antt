-- ===== src/Service/Projection.antt =====
-- packages/service/src/index.ts, `recordInboundProjection` and `recordStatusProjection`: what an
-- update of a webhook writes into the tables of messages. A failure of the store is ignored.
use Prim.Native.String.{String}
use wats.Base.{ℕ, suc, Bool, false, Option, none, some, List, [], ◌∷◌, if◌then◌else◌}
use wats.Base.Json.{Json, obj}
use wats.Base.Result.{Result, ok, err}
use wats.Base.Text.{Text, codes, text_eq}
use wats.Persistence.Validation.{ErrorCode}
use wats.Persistence.Messages as Messages
use wats.Persistence.Messages.{inbound, get_message, record_message, append_message_status}
use wats.Service.DedupKeys.{get_member, text_member, meta_timestamp_to_ms}

abbrev after_call : Messages.Store → Result ErrorCode Messages.Store → Messages.Store
after_call s (ok s') = s'
after_call s (err e) = s

abbrev is_kind : Option Text → String → Bool
is_kind none kind = false
is_kind (some k) kind = text_eq k (codes kind)

-- How the store reads texts of updates.
module _ (read : Text → String) where
  abbrev read_optional : Option Text → Option String
  read_optional none = none
  read_optional (some t) = some (read t)

  -- The record of `recordInboundProjection`, unless there is one.
  pub record_inbound :
      Bool
      → String
      → Text
      → Option Text
      → Text
      → ℕ
      → Result ErrorCode (Option Messages.Message)
      → Messages.Store
      → Messages.Store
  record_inbound fault row_id id from kind at (err e) s = s
  record_inbound fault row_id id from kind at (ok (some old)) s = s
  record_inbound fault row_id id from kind at (ok none) s =
      let message : Messages.Message = record {
        row_id = row_id;
        wa_message_id = read id;
        direction = inbound;
        from_phone = read_optional from;
        to_phone = none;
        message_type = read kind;
        status = "received";
        graph_message_id = none;
        created_at = at;
        updated_at = at;
      } in
      after_call s (record_message fault s message)

  -- What a message must have to be projected: its id, its type and a time.
  pub project_message :
      Bool
      → String
      → ℕ
      → Option Text
      → Option Text
      → Option Text
      → Option Text
      → Messages.Store
      → Messages.Store
  project_message fault row_id now (some id) from (some kind) (some timestamp) s =
      elim (meta_timestamp_to_ms timestamp now) [
        | none ↦ s
        | some at ↦ record_inbound fault row_id id from kind at (get_message s (read id)) s
      ]
  project_message fault row_id now id from kind timestamp s = s

  abbrev message_of : Option Json → Bool → String → ℕ → Messages.Store → Messages.Store
  message_of (some (obj m)) fault row_id now s =
      project_message fault row_id now (text_member "id" m) (text_member "from" m)
        (text_member "type" m) (text_member "timestamp" m) s
  message_of v fault row_id now s = s

  -- `recordInboundProjection`
  pub record_inbound_projection : Bool → String → ℕ → Json → Messages.Store → Messages.Store
  record_inbound_projection fault row_id now (obj u) s =
      if is_kind (text_member "kind" u) "message"
      then message_of (get_member (codes "message") u) fault row_id now s
      else s
  record_inbound_projection fault row_id now u s = s

  abbrev time_of : Option Text → ℕ → ℕ
  time_of none now = now
  time_of (some timestamp) now = elim (meta_timestamp_to_ms timestamp now) [
    | none ↦ now
    | some at ↦ at
  ]

  -- What a status must have to be projected: its id and its value.
  pub project_status :
      Bool → ℕ → Option Text → Option Text → Option Text → Messages.Store → Messages.Store
  project_status fault now (some id) (some status) timestamp s =
      let event : Messages.Event = record {
        wa_message_id = read id;
        status = read status;
        timestamp = time_of timestamp now;
      } in
      after_call s (append_message_status fault s event)
  project_status fault now id status timestamp s = s

  abbrev status_of : Option Json → Bool → ℕ → Messages.Store → Messages.Store
  status_of (some (obj m)) fault now s =
      project_status fault now (text_member "id" m) (text_member "status" m)
        (text_member "timestamp" m) s
  status_of v fault now s = s

  -- `recordStatusProjection`
  pub record_status_projection : Bool → ℕ → Json → Messages.Store → Messages.Store
  record_status_projection fault now (obj u) s =
      if is_kind (text_member "kind" u) "status"
      then status_of (get_member (codes "status") u) fault now s
      else s
  record_status_projection fault now u s = s

  -- The loops of projections, from a position on, with the faults of the store and fresh row ids.
  pub project_all : (ℕ → Bool) → (ℕ → String) → ℕ → List Json → ℕ → Messages.Store → Messages.Store
  project_all fault row_id now [] i s = s
  project_all fault row_id now (u ∷ us) i s = project_all fault row_id now us (suc i) (
      record_status_projection (fault i) now u
        (record_inbound_projection (fault i) (row_id i) now u s))
