-- ===== src/Persistence/Outbox/Keys.antt =====
-- The ids of the outbox are unique, and updates keep them.
use Prim.Native.String.{String}
use text.Mathlib.TextEquality.{eq_iff}
use wats.Base.{
  ℕ, ◌≡◌, refl, Bool, true, none, some, List, [], ◌∷◌, All, arith, keep, All-take, Bool-cases, inl,
  inr, if◌then◌else◌,
}
use wats.Persistence.Table.{find, append}
use wats.Persistence.Table.Laws.{find-append}
use wats.Persistence.Outbox.{
  Row, row_key, update_where, insert_ordered, ordered, is_due, selected, comes_first,
}

abbrev pub IsKeyed : List Row → Type 0
IsKeyed [] = Unit
IsKeyed (r ∷ rows) = (find row_key r.id rows ≡ none) × IsKeyed rows

-- The row is the one of its id.
abbrev pub IsOf : List Row → Row → Type 0
IsOf rows r = find row_key r.id rows ≡ some r

pub find-update_where :
    (k : String) (p : Row → Bool) (f : Row → Row) (rows : List Row) (r : Row)
    → ((x : Row) → (f x).id ≡ x.id)
    → find row_key k rows ≡ some r
    → find row_key k (update_where p f rows).0 ≡ some (if p r then f r else r)
unfolding find update_where
find-update_where k p f [] r h q = ground (arith, q)
find-update_where k p f (x ∷ rows) r h q = ground (arith, q, h x, find-update_where k p f rows r h)

find-update_where-none :
    (k : String) (p : Row → Bool) (f : Row → Row) (rows : List Row)
    → ((x : Row) → (f x).id ≡ x.id)
    → find row_key k rows ≡ none
    → find row_key k (update_where p f rows).0 ≡ none
unfolding find update_where
find-update_where-none k p f [] h q = refl
find-update_where-none k p f (x ∷ rows) h q =
    ground (arith, q, h x, find-update_where-none k p f rows h)

pub update_where-IsKeyed :
    (p : Row → Bool) (f : Row → Row) (rows : List Row)
    → ((x : Row) → (f x).id ≡ x.id)
    → IsKeyed rows
    → IsKeyed (update_where p f rows).0
unfolding update_where
update_where-IsKeyed p f [] h q = tt
update_where-IsKeyed p f (x ∷ rows) h q =
    let none_left = find-update_where-none x.id p f rows h q.0 in
    let more = update_where-IsKeyed p f rows h q.1 in
    elim (Bool-cases (p x)) [
      | inl y ↦ rw y (rw (h x) none_left, more)
      | inr n ↦ rw n (none_left, more)
    ]

pub append-IsKeyed :
    (r : Row) (rows : List Row)
    → find row_key r.id rows ≡ none
    → IsKeyed rows
    → IsKeyed (append row_key r rows)
unfolding append find
append-IsKeyed r [] h q = (refl, tt)
append-IsKeyed r (x ∷ rows) h q = (
  ground (arith, h, q.0, eq_iff x.id r.id, eq_iff r.id x.id, find-append row_key x.id r rows),
  append-IsKeyed r rows (ground (arith, h)) q.1,
)

weaken :
    (x : Row) (rows sub : List Row)
    → find row_key x.id rows ≡ none
    → All (IsOf rows) sub
    → All (IsOf (x ∷ rows)) sub
unfolding find
weaken x rows [] h q = tt
weaken x rows (s ∷ sub) h q = (ground (arith, h, q.0, eq_iff x.id s.id), weaken x rows sub h q.1)

pub keyed-IsOf : (rows : List Row) → IsKeyed rows → All (IsOf rows) rows
unfolding find
keyed-IsOf [] h = tt
keyed-IsOf (r ∷ rows) h =
    (ground (arith, eq_iff r.id r.id), weaken r rows rows h.0 (keyed-IsOf rows h.1))

module _ (P : Row → Type 0) where
  All-keep :
      (p : Row → Bool) (rows : List Row) → All P rows → All (λ r. P r × (p r ≡ true)) (keep p rows)
  All-keep p [] h = tt
  All-keep p (r ∷ rows) h = elim (Bool-cases (p r)) [
    | inl y ↦ rw y ((h.0, y), All-keep p rows h.1)
    | inr n ↦ rw n (All-keep p rows h.1)
  ]

  All-insert_ordered :
      (r : Row) (rows : List Row) → P r → All P rows → All P (insert_ordered r rows)
  unfolding insert_ordered
  All-insert_ordered r [] h q = (h, tt)
  All-insert_ordered r (x ∷ rows) h q = elim (Bool-cases (comes_first r x)) [
    | inl y ↦ rw y (h, q)
    | inr n ↦ rw n (q.0, All-insert_ordered r rows h q.1)
  ]

  All-ordered : (rows : List Row) → All P rows → All P (ordered rows)
  unfolding ordered
  All-ordered [] h = tt
  All-ordered (r ∷ rows) h = All-insert_ordered r (ordered rows) h.0 (All-ordered rows h.1)

-- A row that a claim reads is the one of its id, and due.
abbrev pub IsTaken : ℕ → List Row → Row → Type 0
IsTaken now rows r = IsOf rows r × (is_due now r ≡ true)

pub selected-IsTaken :
    (now limit : ℕ) (rows : List Row)
    → IsKeyed rows
    → All (IsTaken now rows) (selected now limit rows)
unfolding selected
selected-IsTaken now limit rows h =
    All-take (IsTaken now rows) limit (ordered (keep (is_due now) rows)) (
      All-ordered (IsTaken now rows) (keep (is_due now) rows)
        (All-keep (IsOf rows) (is_due now) rows (keyed-IsOf rows h)))
