-- ===== src/Persistence/Messages/Calls.antt =====
-- Calls that change the message tables, what each does to the store, and what becomes of a row.
use Prim.Native.String.{String}
use text.Mathlib.Text.{◌==◌ as str_eq}
use wats.Base.{
  ℕ, ◌≤◌, ◌≡◌, ◌∙◌, refl, Bool, true, false, not, ◌&&◌, some, List, [], ◌∷◌, max, keep, arith,
  if◌then◌else◌,
}
use wats.Base.Result.{Result, ok, err}
use wats.Persistence.Validation.{ErrorCode, is_record_string}
use wats.Persistence.Messages.{
  Message, Event, Store, find_message, is_of, order_by_timestamp, append_rows, record_rows,
  validate_message, validate_event, append_message_status, record_message,
}
use wats.Persistence.Messages.Rank.{
  weight, top, IsRanked, advance-weight, advance-IsRanked, advance-updated_at, best_of-weight,
  best_of-updated_at, top-order_by_timestamp,
}
use wats.Persistence.Messages.Order.{with_best, best_of_row, meet, reconciled}

pub data Call : Type 0 where
  appends : Bool → Event → Call
  records : Bool → Message → Call

abbrev or_same : Store → Result ErrorCode Store → Store
or_same s (ok s') = s'
or_same s (err e) = s

unfoldable pub step : Store → Call → Store
step s (appends fault e) = or_same s (append_message_status fault s e)
step s (records fault m) = or_same s (record_message fault s m)

unfoldable pub run : List Call → Store → Store
run [] s = s
run (c ∷ calls) s = run calls (step s c)

unfoldable pub is_accepted : Bool → Event → Bool
is_accepted fault e = not fault && (is_record_string e.wa_message_id && is_record_string e.status)

-- The highest weight of the events on a message that calls append.
unfoldable pub highest : String → List Call → ℕ
highest id [] = 0
highest id (appends fault e ∷ calls) =
    let rest = highest id calls in
    if is_accepted fault e && is_of id e then max (weight e.status) rest else rest
highest id (records fault m ∷ calls) = highest id calls

-- The call does not record a message of this id.
abbrev pub IsOther : String → Call → Type 0
IsOther id (appends fault e) = Unit
IsOther id (records fault m) = str_eq m.wa_message_id id ≡ false

-- A row `x` that came of the recorded `m`: its weight, a time of update that has not gone back, and the
-- other columns as they were recorded.
pub record Grown (m x : Message) (r : ℕ) : Type 0 where
  pub ranked : IsRanked x.status
  pub highest_weight : weight x.status ≡ r
  pub updated : m.updated_at ≤ x.updated_at
  pub columns : with_best (best_of_row m) x ≡ m

pub record Outcome (id : String) (m : Message) (r : ℕ) (s : Store) : Type 0 where
  pub found : Message
  pub is_found : find_message id s.messages ≡ some found
  pub grown : Grown m found r

pub step-appends :
    (s : Store) (fault : Bool) (e : Event)
    → s.closed ≡ false
    → step s (appends fault e) ≡ (if is_accepted fault e then append_rows s e else s)
unfolding step append_message_status validate_event is_accepted
step-appends s fault e h = ground arith

unfoldable pub is_recorded : Bool → Message → Bool
is_recorded fault m = elim (validate_message m) [ ok _ ↦ not fault | err _ ↦ false ]

pub step-records :
    (s : Store) (fault : Bool) (m : Message)
    → s.closed ≡ false
    → step s (records fault m) ≡ (if is_recorded fault m then record_rows s m else s)
unfolding step record_message is_recorded
step-records s fault m h = ground arith

pub is_recorded-valid : (m : Message) → validate_message m ≡ ok tt → is_recorded false m ≡ true
unfolding is_recorded
is_recorded-valid m h = rw (h, is_recorded) refl

pub step-closed : (s : Store) (c : Call) → s.closed ≡ false → (step s c).closed ≡ false
unfolding append_rows record_rows
step-closed s (appends fault e) h = rw (step-appends s fault e h) ground arith
step-closed s (records fault m) h = rw (step-records s fault m h) ground arith

pub meet-Grown :
    (m x : Message) (r : ℕ) (e : Event) → Grown m x r → Grown m (meet e x) (max r (weight e.status))
unfolding meet
meet-Grown m x r e h = record {
  ranked = advance-IsRanked (best_of_row x) e h.ranked;
  highest_weight = omega (arith, advance-weight (best_of_row x) e h.ranked, h.highest_weight);
  updated = omega (arith, advance-updated_at (best_of_row x) e, h.updated);
  columns = h.columns;
}

pub reconciled-Grown :
    (events : List Event) (m : Message)
    → IsRanked m.status
    → Grown m
        (reconciled events m)
        (max (weight m.status) (top (keep (is_of m.wa_message_id) events)))
unfolding reconciled
reconciled-Grown events m h =
    let own = keep (is_of m.wa_message_id) events in
    let best = best_of-weight (best_of_row m) (order_by_timestamp own) h in
    record {
      ranked = best.0;
      highest_weight = omega (arith, best.1, top-order_by_timestamp own);
      updated = best_of-updated_at (best_of_row m) (order_by_timestamp own);
      columns = refl;
    }

pub outcome :
    (id : String) (m x : Message) (a b : ℕ) (s s' : Store)
    → s' ≡ s
    → find_message id s.messages ≡ some x
    → Grown m x a
    → a ≡ b
    → Outcome id m b s'
outcome id m x a b s s' p f g q = record {
  found = x;
  is_found = rw p f;
  grown = record {
    ranked = g.ranked;
    highest_weight = g.highest_weight ∙ q;
    updated = g.updated;
    columns = g.columns;
  };
}
