-- ===== src/Persistence/Outbox/Updates.antt =====
-- An update of one row by its key changes exactly that row.
use Prim.Native.String.{String}
use text.Mathlib.Text.{◌==◌ as str_eq}
use text.Mathlib.TextEquality.{eq_iff}
use wats.Base.{
  ℕ, zero, suc, ◌≡◌, refl, Bool, true, false, none, some, List, [], ◌∷◌, take, keep, arith,
  Bool-cases, inl, inr,
}
use wats.Base.Result.{ok}
use wats.Persistence.Table.{find}
use wats.Persistence.Outbox.{
  Row, row_key, update_where, update_one, insert_ordered, ordered, selected, is_due, comes_first,
}
use wats.Persistence.Outbox.Keys.{IsKeyed}

-- The test holds of rows of one key only.
abbrev pub IsTestOf : String → (Row → Bool) → Type 0
IsTestOf k p = (x : Row) → p x ≡ true → x.id ≡ k

update_where-none :
    (k : String) (p : Row → Bool) (f : Row → Row) (rows : List Row)
    → IsTestOf k p
    → find row_key k rows ≡ none
    → (update_where p f rows).1 ≡ 0
unfolding update_where find
update_where-none k p f [] h q = refl
update_where-none k p f (x ∷ rows) h q =
    ground (arith, h x, q, eq_iff x.id k, update_where-none k p f rows h)

update_where-one :
    (k : String) (p : Row → Bool) (f : Row → Row) (rows : List Row) (r : Row)
    → IsTestOf k p
    → IsKeyed rows
    → find row_key k rows ≡ some r
    → p r ≡ true
    → (update_where p f rows).1 ≡ 1
unfolding update_where find
update_where-one k p f [] r h q e y = cc
update_where-one k p f (x ∷ rows) r h q e y = ground (
  arith,
  h x,
  q.0,
  e,
  eq_iff x.id k,
  update_where-none k p f rows h,
  update_where-one k p f rows r h (q.1),
)

-- What an update of the row of a key gives.
pub update_one-ok :
    (k : String) (p : Row → Bool) (f : Row → Row) (rows : List Row) (r : Row)
    → IsTestOf k p
    → IsKeyed rows
    → find row_key k rows ≡ some r
    → p r ≡ true
    → update_one p f rows ≡ ok (update_where p f rows).0
unfolding update_one
update_one-ok k p f rows r h q e y = rw (update_where-one k p f rows r h q e y) refl

keep-find-none :
    (k : String) (p : Row → Bool) (rows : List Row)
    → find row_key k rows ≡ none
    → find row_key k (keep p rows) ≡ none
unfolding find
keep-find-none k p [] h = refl
keep-find-none k p (x ∷ rows) h = ground (arith, h, keep-find-none k p rows)

keep-IsKeyed : (p : Row → Bool) (rows : List Row) → IsKeyed rows → IsKeyed (keep p rows)
keep-IsKeyed p [] h = tt
keep-IsKeyed p (x ∷ rows) h = elim (Bool-cases (p x)) [
  | inl y ↦ rw y (keep-find-none x.id p rows (h.0), keep-IsKeyed p rows (h.1))
  | inr n ↦ rw n (keep-IsKeyed p rows (h.1))
]

insert_ordered-find-none :
    (k : String) (r : Row) (rows : List Row)
    → str_eq r.id k ≡ false
    → find row_key k rows ≡ none
    → find row_key k (insert_ordered r rows) ≡ none
unfolding find insert_ordered
insert_ordered-find-none k r [] n h = ground (arith, n)
insert_ordered-find-none k r (x ∷ rows) n h =
    ground (arith, n, h, insert_ordered-find-none k r rows n)

insert_ordered-IsKeyed :
    (r : Row) (rows : List Row)
    → find row_key r.id rows ≡ none
    → IsKeyed rows
    → IsKeyed (insert_ordered r rows)
unfolding insert_ordered find
insert_ordered-IsKeyed r [] n h = (refl, tt)
insert_ordered-IsKeyed r (x ∷ rows) n h = elim (Bool-cases (comes_first r x)) [
  | inl y ↦ rw y (n, h)
  | inr m ↦ rw m (
    insert_ordered-find-none x.id r rows (ground (arith, n, eq_iff x.id r.id, eq_iff r.id x.id))
        (h.0),
    insert_ordered-IsKeyed r rows (ground (arith, n)) (h.1),
  )
]

ordered-find-none :
    (k : String) (rows : List Row)
    → find row_key k rows ≡ none
    → find row_key k (ordered rows) ≡ none
unfolding find ordered
ordered-find-none k [] h = refl
ordered-find-none k (x ∷ rows) h =
    insert_ordered-find-none k x (ordered rows) (ground (arith, h))
      (ordered-find-none k rows (ground (arith, h)))

ordered-IsKeyed : (rows : List Row) → IsKeyed rows → IsKeyed (ordered rows)
unfolding ordered
ordered-IsKeyed [] h = tt
ordered-IsKeyed (x ∷ rows) h =
    insert_ordered-IsKeyed x (ordered rows) (ordered-find-none x.id rows (h.0))
      (ordered-IsKeyed rows (h.1))

take-find-none :
    (k : String) (n : ℕ) (rows : List Row)
    → find row_key k rows ≡ none
    → find row_key k (take n rows) ≡ none
unfolding find
take-find-none k zero rows h = refl
take-find-none k (suc n) [] h = refl
take-find-none k (suc n) (x ∷ rows) h = ground (arith, h, take-find-none k n rows)

take-IsKeyed : (n : ℕ) (rows : List Row) → IsKeyed rows → IsKeyed (take n rows)
take-IsKeyed zero rows h = tt
take-IsKeyed (suc n) [] h = tt
take-IsKeyed (suc n) (x ∷ rows) h = (take-find-none x.id n rows (h.0), take-IsKeyed n rows (h.1))

-- A claim reads no key twice.
pub selected-IsKeyed :
    (now limit : ℕ) (rows : List Row) → IsKeyed rows → IsKeyed (selected now limit rows)
unfolding selected
selected-IsKeyed now limit rows h =
    take-IsKeyed limit (ordered (keep (is_due now) rows))
      (ordered-IsKeyed (keep (is_due now) rows) (keep-IsKeyed (is_due now) rows h))
