-- ===== src/Persistence/MessageList/Sorted.antt =====
-- The rows in their order, and what the `WHERE` clause of a cursor leaves of them.
use wats.Base.{
  ◌≡◌, refl, inl, inr, Bool, true, false, List, [], ◌∷◌, ◌++◌, keep, All, arith, ==_iff, Bool-cases,
  if◌then◌else◌,
}
use wats.Base.Text.{codes, text_eq, text_eq_iff}
use wats.Base.Order.{text_lt_asym, text_lt_total, text_lt_trans}
use wats.Persistence.Messages.{Message}
use wats.Persistence.MessageList.{precedes, insert_listed, listed}

precedes_asym : (a b : Message) → precedes a b ≡ true → precedes b a ≡ false
unfolding precedes
precedes_asym a b h = ground (
  arith,
  h,
  text_lt_asym (codes b.row_id) (codes a.row_id),
  ==_iff a.created_at b.created_at,
  ==_iff b.created_at a.created_at,
)

precedes_trans : (a b c : Message) → precedes a b ≡ true → precedes b c ≡ true → precedes a c ≡ true
unfolding precedes
precedes_trans a b c h k = ground (
  arith,
  h,
  k,
  text_lt_trans (codes c.row_id) (codes b.row_id) (codes a.row_id),
  ==_iff b.created_at a.created_at,
  ==_iff c.created_at b.created_at,
  ==_iff c.created_at a.created_at,
)

-- The rows have different ids.
abbrev pub Differ : Message → Message → Type 0
Differ r x = text_eq (codes x.row_id) (codes r.row_id) ≡ false

abbrev pub AreDistinct : List Message → Type 0
AreDistinct [] = Unit
AreDistinct (r ∷ rows) = All (Differ r) rows × AreDistinct rows

precedes_total : (a b : Message) → Differ a b → precedes a b ≡ false → precedes b a ≡ true
unfolding precedes
precedes_total a b d h = ground (
  arith,
  d,
  h,
  text_eq_iff (codes b.row_id) (codes a.row_id),
  text_lt_total (codes b.row_id) (codes a.row_id),
  ==_iff b.created_at a.created_at,
  ==_iff a.created_at b.created_at,
)

abbrev pub IsBefore : Message → Message → Type 0
IsBefore a b = precedes a b ≡ true

abbrev pub IsSorted : List Message → Type 0
IsSorted [] = Unit
IsSorted (r ∷ rows) = All (IsBefore r) rows × IsSorted rows

module _ (P : Message → Type 0) where
  pub insert_listed-All :
      (r : Message) (rows : List Message) → P r → All P rows → All P (insert_listed r rows)
  unfolding insert_listed
  insert_listed-All r [] h q = (h, tt)
  insert_listed-All r (x ∷ rows) h q = elim (Bool-cases (precedes r x)) [
    | inl y ↦ rw y (h, q)
    | inr n ↦ rw n (q.0, insert_listed-All r rows h (q.1))
  ]

  pub listed-All : (rows : List Message) → All P rows → All P (listed rows)
  unfolding listed
  listed-All [] h = tt
  listed-All (r ∷ rows) h = insert_listed-All r (listed rows) (h.0) (listed-All rows (h.1))

  keep-All : (p : Message → Bool) (rows : List Message) → All P rows → All P (keep p rows)
  keep-All p [] h = tt
  keep-All p (r ∷ rows) h = elim (Bool-cases (p r)) [
    | inl y ↦ rw y (h.0, keep-All p rows (h.1))
    | inr n ↦ rw n (keep-All p rows (h.1))
  ]

IsBefore-trans :
    (a b : Message) (rows : List Message)
    → IsBefore a b
    → All (IsBefore b) rows
    → All (IsBefore a) rows
IsBefore-trans a b [] h q = tt
IsBefore-trans a b (r ∷ rows) h q = (precedes_trans a b r h (q.0), IsBefore-trans a b rows h (q.1))

insert_listed-IsSorted :
    (r : Message) (rows : List Message)
    → All (Differ r) rows
    → IsSorted rows
    → IsSorted (insert_listed r rows)
unfolding insert_listed
insert_listed-IsSorted r [] d w = (tt, tt)
insert_listed-IsSorted r (x ∷ rows) d w = elim (Bool-cases (precedes r x)) [
  | inl y ↦ rw y ((y, IsBefore-trans r x rows y (w.0)), w)
  | inr n ↦ rw n (
    insert_listed-All (IsBefore x) r rows (precedes_total r x (d.0) n) (w.0),
    insert_listed-IsSorted r rows (d.1) (w.1),
  )
]

pub listed-IsSorted : (rows : List Message) → AreDistinct rows → IsSorted (listed rows)
unfolding listed
listed-IsSorted [] d = tt
listed-IsSorted (r ∷ rows) d =
    insert_listed-IsSorted r (listed rows) (listed-All (Differ r) rows (d.0))
      (listed-IsSorted rows (d.1))

insert_first :
    (r : Message) (rows : List Message) → All (IsBefore r) rows → insert_listed r rows ≡ r ∷ rows
unfolding insert_listed
insert_first r [] h = refl
insert_first r (x ∷ rows) h = ground (arith, h.0)

keep-insert_listed :
    (p : Message → Bool) (r : Message) (rows : List Message)
    → IsSorted rows
    → keep p (insert_listed r rows) ≡ (if p r then insert_listed r (keep p rows) else keep p rows)
unfolding insert_listed
keep-insert_listed p r [] w = ground arith
keep-insert_listed p r (x ∷ rows) w = elim (Bool-cases (precedes r x)) [
  | inl y ↦ ground (
    arith,
    y,
    insert_first r (keep p rows) (keep-All (IsBefore r) p rows (IsBefore-trans r x rows y (w.0))),
  )
  | inr n ↦ ground (arith, n, keep-insert_listed p r rows (w.1))
]

pub keep-listed :
    (p : Message → Bool) (rows : List Message)
    → AreDistinct rows
    → keep p (listed rows) ≡ listed (keep p rows)
unfolding listed
keep-listed p [] d = refl
keep-listed p (r ∷ rows) d = ground (
  arith,
  keep-insert_listed p r (listed rows) (listed-IsSorted rows (d.1)),
  keep-listed p rows (d.1),
)

keep_all :
    (c : Message) (rows : List Message) → All (IsBefore c) rows → keep (precedes c) rows ≡ rows
keep_all c [] h = refl
keep_all c (r ∷ rows) h = ground (arith, h.0, keep_all c rows (h.1))

pub middle :
    (P : Message → Type 0) (xs : List Message) (c : Message) (ys : List Message)
    → All P (xs ++ c ∷ ys)
    → P c
middle P [] c ys h = h.0
middle P (x ∷ xs) c ys h = middle P xs c ys (h.1)

-- Of sorted rows, those after one of them are left.
pub keep_after :
    (xs : List Message) (c : Message) (ys : List Message)
    → IsSorted (xs ++ c ∷ ys)
    → keep (precedes c) (xs ++ c ∷ ys) ≡ ys
keep_after [] c ys w = ground (arith, precedes_asym c c, keep_all c ys (w.0))
keep_after (x ∷ xs) c ys w =
    ground (arith, precedes_asym x c (middle (IsBefore x) xs c ys (w.0)), keep_after xs c ys (w.1))
