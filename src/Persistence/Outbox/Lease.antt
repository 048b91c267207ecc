-- ===== src/Persistence/Outbox/Lease.antt =====
-- An item under a lease: nobody else touches it until the lease runs out, and then a claim takes it.
use Prim.Native.String.{String}
use text.Mathlib.Text.{◌==◌ as str_eq}
use text.Mathlib.TextEquality.{eq_iff}
use wats.Base.{
  ℕ, zero, suc, ◌+◌, ◌≤◌, ◌<◌, ◌≡◌, ◌≢◌, ◌⊎◌, ◌∙◌, refl, sym, ap, inl, inr, Bool, true, false, none,
  some, List, [], ◌∷◌, All, keep, take, length, arith, ==_iff, Bool-cases,
}
use mathlib.Core.Path.{subst}
use wats.Persistence.Table.{find}
use wats.Persistence.Table.Laws.{find-key}
use wats.Persistence.Outbox.{
  processing, Row, Store, row_key, is_due, is_row, comes_first, insert_ordered, ordered, selected,
  claimed,
}
use wats.Persistence.Outbox.Kept.{Has}
use wats.Persistence.Outbox.History.{
  Call, enqueues, claims, fails, succeeds, Spares, step, run, run-Has,
}
use wats.Persistence.Outbox.Closed.{run-closed}
use wats.Persistence.Outbox.Claimed.{claim_outbox_items-Claim}

-- The call is no mark with both the id and the lease of the row, and no claim from five minutes after
-- the row's claim on.
abbrev pub Respects : Row → Call → Type 0
Respects r (enqueues fault id hash at next) = Unit
Respects r (claims fault now limit) = now < r.updated_at + 300000
Respects r (fails fault id lease next at) = (id ≢ r.id) ⊎ (lease ≢ r.lease_id)
Respects r (succeeds fault id lease at) = (id ≢ r.id) ⊎ (lease ≢ r.lease_id)

is_row-other :
    (r : Row) (id : String) (lease : ℕ)
    → (id ≢ r.id) ⊎ (lease ≢ r.lease_id)
    → is_row id processing lease r ≡ false
unfolding is_row
is_row-other r id lease (inl n) = elim (Bool-cases (is_row id processing lease r)) [
  | inr e ↦ e
  | inl e ↦ absurd (n (ground (arith, e, eq_iff r.id id)))
]
is_row-other r id lease (inr n) = elim (Bool-cases (is_row id processing lease r)) [
  | inr e ↦ e
  | inl e ↦ absurd (n (ground (arith, e, ==_iff r.lease_id lease)))
]

Respects-Spares : (r : Row) (c : Call) → r.status ≡ processing → Respects r c → Spares r c
unfolding is_due
Respects-Spares r (enqueues fault id hash at next) p h = tt
Respects-Spares r (claims fault now limit) p h = rw p (ground (arith, h))
Respects-Spares r (fails fault id lease next at) p h = is_row-other r id lease h
Respects-Spares r (succeeds fault id lease at) p h = is_row-other r id lease h

respected :
    (r : Row) (calls : List Call)
    → r.status ≡ processing
    → All (Respects r) calls
    → All (Spares r) calls
respected r [] p h = tt
respected r (c ∷ calls) p h = (Respects-Spares r c p h.0, respected r calls p h.1)

length-keep-le : (p : Row → Bool) (rows : List Row) → length (keep p rows) ≤ length rows
length-keep-le p [] = omega arith
length-keep-le p (r ∷ rows) = ground (arith, length-keep-le p rows)

length-insert_ordered :
    (r : Row) (rows : List Row) → length (insert_ordered r rows) ≡ suc (length rows)
unfolding insert_ordered
length-insert_ordered r [] = refl
length-insert_ordered r (x ∷ rows) = ground (arith, length-insert_ordered r rows)

length-ordered : (rows : List Row) → length (ordered rows) ≡ length rows
unfolding ordered
length-ordered [] = refl
length-ordered (r ∷ rows) = length-insert_ordered r (ordered rows) ∙ ap suc (length-ordered rows)

take_all : (n : ℕ) (rows : List Row) → length rows ≤ n → take n rows ≡ rows
take_all zero [] h = refl
take_all zero (r ∷ rows) h = absurd (omega (arith, h))
take_all (suc n) [] h = refl
take_all (suc n) (r ∷ rows) h = ap (λ t. r ∷ t) (take_all n rows (omega (arith, h)))

module _ (P : Row → Type 0) where
  inserted : (r : Row) (rows : List Row) → All P (insert_ordered r rows) → P r × All P rows
  unfolding insert_ordered
  inserted r [] h = (h.0, tt)
  inserted r (x ∷ rows) h = elim (Bool-cases (comes_first r x)) [
    | inl y ↦ let g : All P (r ∷ x ∷ rows) = rw y at h in (g.0, g.1)
    | inr n ↦
        let g : All P (x ∷ insert_ordered r rows) = rw n at h in
        let more = inserted r rows g.1 in (more.0, (g.0, more.1))
  ]

  sorted_all : (rows : List Row) → All P (ordered rows) → All P rows
  unfolding ordered
  sorted_all [] h = tt
  sorted_all (r ∷ rows) h =
      let more = inserted r (ordered rows) h in (more.0, sorted_all rows more.1)

  kept_one :
      (p : Row → Bool) (k : String) (r : Row) (rows : List Row)
      → find row_key k rows ≡ some r
      → p r ≡ true
      → All P (keep p rows)
      → P r
  unfolding find
  kept_one p k r [] e y h = cc
  kept_one p k r (x ∷ rows) e y h = elim (Bool-cases (str_eq x.id k)) [
    | inl same ↦
        let is_x : x ≡ r = ground (arith, same, e) in
        let g : All P (x ∷ keep p rows) = rw (ap p is_x ∙ y) at h in subst P is_x g.0
    | inr other ↦
        let rest : find row_key k rows ≡ some r = ground (arith, other, e) in
        kept_one p k r rows rest y (later x p rows h)
  ]
    where
      later :
          (x : Row) (p : Row → Bool) (rows : List Row)
          → All P (keep p (x ∷ rows))
          → All P (keep p rows)
      later x p rows h = elim (Bool-cases (p x)) [
        | inl y ↦ let g : All P (x ∷ keep p rows) = rw y at h in g.1
        | inr n ↦ let g : All P (keep p rows) = rw n at h in g
      ]

  -- A claim with room for all rows reads every row that is due.
  selected_one :
      (now limit : ℕ) (k : String) (r : Row) (rows : List Row)
      → find row_key k rows ≡ some r
      → is_due now r ≡ true
      → length rows ≤ limit
      → All P (selected now limit rows)
      → P r
  unfolding selected
  selected_one now limit k r rows e due room h = kept_one (is_due now) k r rows e due (
      sorted_all (keep (is_due now) rows) (
        subst (All P)
          (take_all limit (ordered (keep (is_due now) rows)) (
            omega (
              arith,
              room,
              length-keep-le (is_due now) rows,
              length-ordered (keep (is_due now) rows),
            )))
          h))

over-is_due :
    (now : ℕ) (r : Row) → r.status ≡ processing → r.updated_at + 300000 ≤ now → is_due now r ≡ true
unfolding is_due
over-is_due now r p h = rw p (ground (arith, h))

claimed_row :
    (now : ℕ) (r : Row)
    → r.status ≡ processing
    → claimed now r ≡ record r {
      attempts = suc r.attempts;
      lease_id = suc r.lease_id;
      next_attempt_at = none;
      updated_at = now;
    }
unfolding claimed
claimed_row now r p = rw p refl

-- Take an open outbox with unique ids and an item of it that is processed under a lease. Through every
-- history of calls, with valid or invalid inputs and failures of the engine, in which nobody else
-- marks the item with that lease and no claim is made five minutes after the item's own or later,
-- the item stands as it is. After five minutes, a claim with room for all items whose statements do
-- not fail takes it: it is processed again, with one attempt more and the next lease.
pub run-leased :
    (k : String) (r : Row) (calls : List Call) (s : Store) (now limit : ℕ)
    → s.closed ≡ false
    → Has k r s.rows
    → r.status ≡ processing
    → All (Respects r) calls
    → r.updated_at + 300000 ≤ now
    → 1 ≤ limit
    → limit ≤ 100
    → length (run calls s).rows ≤ limit
    → Has k r (run calls s).rows
      × (find row_key k (step (run calls s) (claims false now limit)).rows
          ≡ some (record r {
            attempts = suc r.attempts;
            lease_id = suc r.lease_id;
            next_attempt_at = none;
            updated_at = now;
          }))
unfolding step
run-leased k r calls s now limit is_open has p respects over least most room =
    let kept : Has k r (run calls s).rows =
      run-Has k r calls s (respected r calls p respects) has in
    let (claim, is_claim) =
      claim_outbox_items-Claim (run calls s) now limit (run-closed calls s ∙ is_open) least most
        kept.keyed in
    let same : r.id ≡ k = find-key row_key k r (run calls s).rows kept.is_found in
    let taken : find row_key r.id claim.after ≡ some (claimed now r) =
      selected_one (λ x. find row_key x.id claim.after ≡ some (claimed now x)) now limit k r
        (run calls s).rows kept.is_found (over-is_due now r p over) room claim.taken in
    (
      kept,
      rw is_claim (
          ap (λ id. find row_key id claim.after) (sym same)
          ∙ taken
          ∙ ap some (claimed_row now r p)),
    )
