-- ===== src/Persistence/Messages/Order.antt =====
-- What becomes of one message's row under the calls that change the tables.
use Prim.Native.String.{String}
use text.Mathlib.Text.{◌==◌ as str_eq}
use text.Mathlib.TextEquality.{eq_iff}
use text.Mathlib.TextPositions.{eq_refl}
use mathlib.Core.Option
use wats.Base.{
  ℕ, ◌≡◌, ◌∙◌, refl, inl, inr, Bool, true, false, Option, none, some, List, [], ◌∷◌, ◌++◌, any,
  keep, arith, Bool-cases, if◌then◌else◌,
}
use wats.Persistence.Messages.{
  Message, Event, Store, Best, clashes, insert_message, find_message, update_status, is_of, advance,
  best_of, same_best, later, order_by_timestamp, append_update, append_rows, record_rows,
  reconcile_stored_status,
}

-- The columns that an `UPDATE` sets.
abbrev pub with_best : Best → Message → Message
with_best best m = record m { status = best.status; updated_at = best.updated_at }

abbrev pub best_of_row : Message → Best
best_of_row m = record { status = m.status; updated_at = m.updated_at }

-- A row after an event on it.
unfoldable pub meet : Event → Message → Message
meet e m = with_best (advance (best_of_row m) e) m

-- A row as the reconciliation with events leaves it.
unfoldable pub reconciled : List Event → Message → Message
reconciled events m =
    with_best (best_of (best_of_row m) (order_by_timestamp (keep (is_of m.wa_message_id) events))) m

find-update_status :
    (id j status : String) (at : ℕ) (rows : List Message)
    → find_message j (update_status id status at rows) ≡ (
        if str_eq id j
        then Option.map
            (with_best (record { status = status; updated_at = at }))
            (find_message j rows)
        else find_message j rows)
unfolding find_message update_status
find-update_status id j status at [] = ground arith
find-update_status id j status at (m ∷ rows) = ground (
  arith,
  eq_iff id j,
  eq_iff m.wa_message_id id,
  eq_iff m.wa_message_id j,
  find-update_status id j status at rows,
)

find-snoc :
    (j : String) (m : Message) (rows : List Message)
    → find_message j (rows ++ (m ∷ [])) ≡ (elim (find_message j rows) [
      | some x ↦ some x
      | none ↦ if str_eq m.wa_message_id j then some m else none
    ])
unfolding find_message
find-snoc j m [] = refl
find-snoc j m (x ∷ rows) = ground (arith, find-snoc j m rows)

find-reconcile :
    (id j : String) (unchanged : Bool) (best : Best) (rows : List Message)
    → str_eq id j ≡ false
    → find_message j (if unchanged then rows else update_status id best.status best.updated_at rows)
      ≡ find_message j rows
find-reconcile id j unchanged best rows h =
    ground (arith, find-update_status id j best.status best.updated_at rows)

find-insert_message :
    (j : String) (m : Message) (rows : List Message)
    → str_eq m.wa_message_id j ≡ false
    → find_message j (insert_message m rows) ≡ find_message j rows
unfolding insert_message
find-insert_message j m rows h = ground (arith, find-snoc j m rows)

-- The row of another message is not touched.
pub find-record_rows-other :
    (j : String) (m : Message) (s : Store)
    → str_eq m.wa_message_id j ≡ false
    → find_message j (record_rows s m).messages ≡ find_message j s.messages
unfolding record_rows reconcile_stored_status
find-record_rows-other j m s h =
    find-reconcile m.wa_message_id j _ _ (insert_message m s.messages) h
    ∙ find-insert_message j m s.messages h

-- A new row is reconciled with the events that came before it.
find-reconcile-own :
    (best : Best) (m : Message) (rows : List Message)
    → find_message m.wa_message_id rows ≡ some m
    → find_message m.wa_message_id (
        if same_best best (best_of_row m)
        then rows
        else update_status m.wa_message_id best.status best.updated_at rows)
      ≡ some (with_best best m)
find-reconcile-own best m rows h = ground (
  arith,
  eq_iff best.status m.status,
  eq_iff m.wa_message_id m.wa_message_id,
  find-update_status m.wa_message_id m.wa_message_id best.status best.updated_at rows,
)

find-new :
    (m : Message) (rows : List Message)
    → any (clashes m) rows ≡ false
    → find_message m.wa_message_id rows ≡ none
    → find_message m.wa_message_id (insert_message m rows) ≡ some m
unfolding insert_message
find-new m rows h q = ground (arith, eq_refl m.wa_message_id, find-snoc m.wa_message_id m rows)

pub find-record_rows :
    (m : Message) (s : Store)
    → any (clashes m) s.messages ≡ false
    → find_message m.wa_message_id s.messages ≡ none
    → find_message m.wa_message_id (record_rows s m).messages ≡ some (reconciled s.events m)
unfolding record_rows reconcile_stored_status reconciled
find-record_rows m s h q =
    find-reconcile-own _ m (insert_message m s.messages) (find-new m s.messages h q)

find-append_update :
    (e : Event) (id : String) (o : Option Message) (rows : List Message)
    → str_eq e.wa_message_id id ≡ false
    → find_message id (append_update e o rows) ≡ find_message id rows
unfolding append_update
find-append_update e id none rows h = refl
find-append_update e id (some m) rows h =
    ground
      (arith, find-update_status e.wa_message_id id e.status (later e.timestamp m.updated_at) rows)

find-append_update-own :
    (id : String) (e : Event) (m : Message) (rows : List Message)
    → is_of id e ≡ true
    → find_message id rows ≡ some m
    → find_message id (append_update e (find_message e.wa_message_id rows) rows) ≡ some (meet e m)
unfolding append_update meet advance
find-append_update-own id e m rows y h = ground (
  arith,
  eq_iff e.wa_message_id id,
  find-update_status e.wa_message_id id e.status (later e.timestamp m.updated_at) rows,
)

pub find-append_rows :
    (id : String) (e : Event) (m : Message) (s : Store)
    → find_message id s.messages ≡ some m
    → find_message id (append_rows s e).messages ≡ some (if is_of id e then meet e m else m)
unfolding append_rows
find-append_rows id e m s h = elim (Bool-cases (is_of id e)) [
  | inr n ↦
      rw n (find-append_update e id (find_message e.wa_message_id s.messages) s.messages n ∙ h)
  | inl y ↦ rw y (find-append_update-own id e m s.messages y h)
]

pub find-append_rows-none :
    (id : String) (e : Event) (s : Store)
    → find_message id s.messages ≡ none
    → find_message id (append_rows s e).messages ≡ none
unfolding append_rows append_update
find-append_rows-none id e s h = elim (Bool-cases (is_of id e)) [
  | inr n ↦ find-append_update e id (find_message e.wa_message_id s.messages) s.messages n ∙ h
  | inl y ↦ ground (arith, eq_iff e.wa_message_id id)
]
