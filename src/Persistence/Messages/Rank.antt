-- ===== src/Persistence/Messages/Rank.antt =====
-- The ranks and weights of statuses, and how a message's weight grows with the events that it meets.
use Prim.Native.String.{String}
use text.Mathlib.Text.{◌==◌ as str_eq}
use text.Mathlib.TextEquality.{eq_iff}
use mathlib.Core.Path.{subst}
use wats.Base.{
  ℕ, ◌≤◌, ◌≡◌, refl, sym, Bool, inl, inr, true, false, none, some, List, [], ◌∷◌, ◌++◌, max, any,
  keep, arith, Bool-cases, Option-cases, if◌then◌else◌,
}
use wats.Persistence.Messages.{
  Event, Best, is_inherited, status_rank, rank_gt, rank_le, failed_may_replace,
  should_advance_status, same_event, insert_event, insert_by_timestamp, order_by_timestamp, is_of,
  advance, best_of,
}

-- How far a status is: read is above delivered, that above failed, that above sent, and that above
-- all others.
unfoldable pub weight : String → ℕ
weight status =
    if str_eq status "read"
    then 4
    else if str_eq status "delivered"
    then 3
    else if str_eq status "failed"
    then 2
    else if str_eq status "sent"
    then 1
    else 0

-- The status has a rank.
abbrev pub IsRanked : String → Type 0
IsRanked status = (n : ℕ) × (status_rank status ≡ some n)

-- The highest weight of some events.
unfoldable pub top : List Event → ℕ
top [] = 0
top (e ∷ es) = max (weight e.status) (top es)

pub failed_rank : status_rank "failed" ≡ some 1
unfolding status_rank is_inherited
failed_rank = refl

abbrev IsAt : String → ℕ → ℕ → Bool → Type 0
IsAt status w n failed =
    (weight status ≡ w) × (status_rank status ≡ some n) × (str_eq status "failed" ≡ failed)

-- The weight of a status beside its rank in the code.
data Kind (status : String) : Type 0 where
  at_read : IsAt status 4 3 false → Kind status
  at_delivered : IsAt status 3 2 false → Kind status
  at_failed : IsAt status 2 1 true → Kind status
  at_sent : IsAt status 1 1 false → Kind status
  at_pending : IsAt status 0 0 false → Kind status
  unranked :
      (weight status ≡ 0) × (status_rank status ≡ none) × (str_eq status "failed" ≡ false)
      → Kind status

read-Kind : Kind "read"
unfolding status_rank weight
read-Kind = at_read (refl, refl, refl)

delivered-Kind : Kind "delivered"
unfolding status_rank weight
delivered-Kind = at_delivered (refl, refl, refl)

failed-Kind : Kind "failed"
unfolding status_rank weight
failed-Kind = at_failed (refl, refl, refl)

sent-Kind : Kind "sent"
unfolding status_rank weight
sent-Kind = at_sent (refl, refl, refl)

other-Kind :
    (status : String)
    → str_eq status "read" ≡ false
    → str_eq status "delivered" ≡ false
    → str_eq status "failed" ≡ false
    → str_eq status "sent" ≡ false
    → Kind status
unfolding status_rank weight
other-Kind status r d f s = elim (Bool-cases (str_eq status "pending")) [
  | inl y ↦ at_pending (rw (r, d, f, s) refl, rw y refl, f)
  | inr n ↦ elim (Bool-cases (is_inherited status)) [
    | inl y ↦ unranked (rw (r, d, f, s) refl, rw (n, s, d, r, f, y) refl, f)
    | inr m ↦ at_pending (rw (r, d, f, s) refl, rw (n, s, d, r, f, m) refl, f)
  ]
]

status-Kind : (status : String) → Kind status
status-Kind status = elim (Bool-cases (str_eq status "read")) [
  | inl y ↦ subst Kind (sym ((eq_iff status "read").0 y)) read-Kind
  | inr r ↦ elim (Bool-cases (str_eq status "delivered")) [
    | inl y ↦ subst Kind (sym ((eq_iff status "delivered").0 y)) delivered-Kind
    | inr d ↦ elim (Bool-cases (str_eq status "failed")) [
      | inl y ↦ subst Kind (sym ((eq_iff status "failed").0 y)) failed-Kind
      | inr f ↦ elim (Bool-cases (str_eq status "sent")) [
        | inl y ↦ subst Kind (sym ((eq_iff status "sent").0 y)) sent-Kind
        | inr s ↦ other-Kind status r d f s
      ]
    ]
  ]
]

-- A status that advances another is the one with the greater weight of the two, and one that does not
-- has no greater one.
pub should_advance_status-weight :
    (new current : String)
    → IsRanked current
    → weight (if should_advance_status new current then new else current)
      ≡ max (weight current) (weight new)
unfolding should_advance_status failed_may_replace rank_gt rank_le
should_advance_status-weight new current h =
    ground (arith, h.1, status-Kind new, status-Kind current)

-- A status without a rank never advances another.
should_advance_status-none :
    (new current : String) → status_rank new ≡ none → should_advance_status new current ≡ false
unfolding should_advance_status rank_gt
should_advance_status-none new current h = ground (arith, failed_rank, eq_iff new "failed")

pub should_advance_status-IsRanked :
    (new current : String)
    → IsRanked current
    → IsRanked (if should_advance_status new current then new else current)
should_advance_status-IsRanked new current h = elim (Option-cases (status_rank new)) [
  | inl q ↦ rw (should_advance_status-none new current q) h
  | inr (n, q) ↦ elim (Bool-cases (should_advance_status new current)) [
    | inr e ↦ rw e h
    | inl e ↦ rw e (n, q)
  ]
]

-- The best status of a fold is ranked, and its weight is the highest of all.
advance-status :
    (best : Best) (e : Event)
    → (advance best e).status
      ≡ (if should_advance_status e.status best.status then e.status else best.status)
unfolding advance
advance-status best e = ground arith

pub advance-weight :
    (best : Best) (e : Event)
    → IsRanked best.status
    → weight (advance best e).status ≡ max (weight best.status) (weight e.status)
advance-weight best e h =
    rw (advance-status best e) (should_advance_status-weight e.status best.status h)

pub advance-IsRanked :
    (best : Best) (e : Event) → IsRanked best.status → IsRanked (advance best e).status
advance-IsRanked best e h =
    rw (advance-status best e) (should_advance_status-IsRanked e.status best.status h)

pub advance-updated_at : (best : Best) (e : Event) → best.updated_at ≤ (advance best e).updated_at
unfolding advance
advance-updated_at best e = ground arith

pub best_of-updated_at :
    (best : Best) (es : List Event) → best.updated_at ≤ (best_of best es).updated_at
unfolding best_of
best_of-updated_at best [] = omega arith
best_of-updated_at best (e ∷ es) =
    omega (arith, advance-updated_at best e, best_of-updated_at (advance best e) es)

pub best_of-weight :
    (best : Best) (es : List Event)
    → IsRanked best.status
    → IsRanked (best_of best es).status
      × (weight (best_of best es).status ≡ max (weight best.status) (top es))
unfolding best_of top
best_of-weight best [] h = (h, omega arith)
best_of-weight best (e ∷ es) h =
    let more = best_of-weight (advance best e) es (advance-IsRanked best e h) in
    (more.0, omega (arith, more.1, advance-weight best e h))

top-insert_by_timestamp :
    (e : Event) (es : List Event) → top (insert_by_timestamp e es) ≡ max (weight e.status) (top es)
unfolding top insert_by_timestamp
top-insert_by_timestamp e [] = refl
top-insert_by_timestamp e (x ∷ xs) = ground (arith, top-insert_by_timestamp e xs)

pub top-order_by_timestamp : (es : List Event) → top (order_by_timestamp es) ≡ top es
unfolding top order_by_timestamp
top-order_by_timestamp [] = refl
top-order_by_timestamp (e ∷ es) =
    ground (arith, top-insert_by_timestamp e (order_by_timestamp es), top-order_by_timestamp es)

-- A new event raises the highest weight, and one that is there already is counted.
top-keep-same :
    (id : String) (e : Event) (es : List Event)
    → any (same_event e) es ≡ true
    → is_of id e ≡ true
    → max (top (keep (is_of id) es)) (weight e.status) ≡ top (keep (is_of id) es)
unfolding top same_event
top-keep-same id e [] h q = cc
top-keep-same id e (x ∷ xs) h q =
    ground (
      arith,
      eq_iff x.wa_message_id e.wa_message_id,
      eq_iff x.status e.status,
      top-keep-same id e xs,
    )

keep-append :
    (id : String) (e : Event) (es : List Event)
    → top (keep (is_of id) (es ++ (e ∷ []))) ≡ (
        if is_of id e
        then max (top (keep (is_of id) es)) (weight e.status)
        else top (keep (is_of id) es))
unfolding top
keep-append id e [] = ground arith
keep-append id e (x ∷ xs) = ground (arith, keep-append id e xs)

pub top-insert_event :
    (id : String) (e : Event) (es : List Event)
    → top (keep (is_of id) (insert_event e es)) ≡ (
        if is_of id e
        then max (top (keep (is_of id) es)) (weight e.status)
        else top (keep (is_of id) es))
unfolding insert_event
top-insert_event id e es = ground (arith, top-keep-same id e es, keep-append id e es)
