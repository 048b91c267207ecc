-- ===== src/Persistence/ServiceRequests/Completion.antt =====
-- What completing, recording and looking up a service request do to the slots.
use Prim.Native.String.{String}
use text.Mathlib.Text.{◌==◌ as str_eq}
use text.Mathlib.TextEquality.{eq_iff}
use mathlib.Core.Option
use wats.Base.{
  ℕ, ◌≡◌, refl, inl, inr, Bool, true, false, List, arith, Option-cases, Bool-cases, if◌then◌else◌,
}
use wats.Base.Result.{ok, err}
use wats.Persistence.Validation.{ErrorCode, is_record_string}
use wats.Persistence.Table.{find, modify}
use wats.Persistence.Table.Laws.{find-modify}
use wats.Persistence.ServiceRequests.{
  Row, Store, row_key, insert_or_ignore, is_completed, with_rows, lookup_answer, finish,
  complete_row, get_service_request, record_service_request, complete_service_request,
}
use wats.Persistence.ServiceRequests.Slots.{
  Slot, slot, slot_complete, slot_record, slot_get, IsReady, Changes, reservation,
  find-insert_or_ignore,
}

-- A response text that the store takes.
pub record IsResponse (is_json : String → Bool) (json : String) : Type 0 where
  pub valid : is_record_string json ≡ true
  pub parses : is_json json ≡ true

module _ (is_json : String → Bool) (s : Store) (key hash json : String) (at : ℕ)
    (v : IsReady s key hash) (w : IsResponse is_json json) where
  abbrev completed_rows : List Row
  completed_rows = modify row_key key (finish json at) s.rows

  find-completed :
      (j : String)
      → find row_key j completed_rows ≡ (
          if str_eq key j
          then Option.map (finish json at) (find row_key key s.rows)
          else find row_key j s.rows)
  find-completed j = find-modify row_key key j (finish json at) s.rows (λ r. refl)

  complete-reads :
      complete_service_request is_json false s key hash json at
      ≡ complete_row s key hash json at (find row_key key s.rows)
  unfolding complete_service_request
  complete-reads = ground (arith, v.is_open, v.key_valid, v.hash_valid, w.valid, w.parses)

  -- With a ready store, a valid key and hash, a valid response and no failing statement, a completion
  -- finishes a slot that is
  -- reserved under its hash, and leaves a slot that is finished under its hash as it is; no other slot
  -- changes. A store is ready if it is open and its completed rows have their response.
  pub complete_service_request-Changes :
      (x : Slot)
      → slot_complete hash json (slot key s) ≡ ok x
      → (s' : Store) × (complete_service_request is_json false s key hash json at ≡ ok s')
        × Changes s s' key (λ y. x)
  unfolding complete_row slot slot_complete
  complete_service_request-Changes x e = elim (Option-cases (find row_key key s.rows)) [
    | inl absent ↦ absurd (ground arith)
    | inr (r, found) ↦ elim (Bool-cases (is_completed r.status)) [
      | inl already ↦ (
        s,
        ground (arith, complete-reads, v.whole key),
        record {
          slots = λ j. ground (arith, eq_iff key j, v.whole key);
          whole = v.whole;
          closed = refl;
        },
      )
      | inr held ↦ (
        with_rows s completed_rows,
        ground (arith, complete-reads),
        record {
          slots = λ j. ground (arith, find-completed j);
          whole = λ j. ground (arith, find-completed j, v.whole j);
          closed = refl;
        },
      )
    ]
  ]

  pub complete_service_request-fails :
      (e : ErrorCode)
      → slot_complete hash json (slot key s) ≡ err e
      → complete_service_request is_json false s key hash json at ≡ err e
  unfolding complete_row slot slot_complete
  complete_service_request-fails e h = ground (arith, complete-reads, v.whole key)

  record_slots :
      (j : String)
      → slot j (with_rows s (insert_or_ignore (finish json at (reservation key hash at)) s.rows).0)
        ≡ (if str_eq key j then slot_record hash json (slot j s) else slot j s)
  unfolding slot slot_record
  record_slots j = ground (
    arith,
    eq_iff key j,
    find-insert_or_ignore j (finish json at (reservation key hash at)) s.rows,
  )

  -- The older way to store a response fills a free slot and changes no other.
  pub record_service_request-Changes :
      (s' : Store) × (record_service_request is_json false s key hash json at ≡ ok s')
      × Changes s s' key (slot_record hash json)
  unfolding record_service_request
  record_service_request-Changes = (
    with_rows s (insert_or_ignore (finish json at (reservation key hash at)) s.rows).0,
    ground (arith, v.is_open, v.key_valid, v.hash_valid, w.valid, w.parses),
    record {
      slots = record_slots;
      whole = λ j. ground (
        arith,
        v.whole j,
        find-insert_or_ignore j (finish json at (reservation key hash at)) s.rows,
      );
      closed = refl;
    },
  )

-- A lookup reads the slot of its key.
pub get_service_request-slot :
    (s : Store) (key hash : String)
    → IsReady s key hash
    → get_service_request s key hash ≡ ok (slot_get hash (slot key s))
unfolding get_service_request lookup_answer slot slot_get
get_service_request-slot s key hash v =
    ground (arith, v.is_open, v.key_valid, v.hash_valid, v.whole key)
