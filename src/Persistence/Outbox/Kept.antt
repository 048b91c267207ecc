-- ===== src/Persistence/Outbox/Kept.antt =====
-- A row that no claim is due to take and no mark has the lease of is kept as it is.
use Prim.Native.String.{String}
use text.Mathlib.TextEquality.{eq_iff}
use wats.Base.{
  ℕ, ◌≡◌, ◌∙◌, refl, ap, Bool, false, not, ◌&&◌, map, leb, Option, none, some, List, [], ◌∷◌, All,
  arith, ◌==◌, inl, inr, Bool-cases, Option-cases, if-false,
}
use wats.Base.Result.{Result, ok, err, ◌>>=◌, ◌>>◌, guard}
use wats.Persistence.Validation.{ErrorCode, validate_string, invalid_record, outbox_failed}
use wats.Persistence.Table.{find, append}
use wats.Persistence.Table.Laws.{find-append, find-key}
use wats.Persistence.Outbox.{
  EnqueueResult, assert_open, is_payload_hash, new_row, insert_new, Row, Store, row_key, is_due,
  is_row, update_where, update_one, claimed, claim_rows, selected, enqueue_outbox_item,
  claim_outbox_items,
}
use wats.Persistence.Outbox.Keys.{
  IsKeyed, IsTaken, find-update_where, update_where-IsKeyed, append-IsKeyed, selected-IsTaken,
}

-- The rows are keyed, and one of them is `r` under the key `k`.
pub record Has (k : String) (r : Row) (rows : List Row) : Type 0 where
  pub keyed : IsKeyed rows
  pub is_found : find row_key k rows ≡ some r

-- What holds of a result that is there.
abbrev pub Holds {ℓ κ} : {A : Type ℓ} → (A → Type κ) → Result ErrorCode A → Type κ
Holds P (ok a) = P a
Holds P (err e) = Unit

module _ {ℓ κ μ} {A : Type ℓ} {B : Type κ} (P : A → Type μ) (Q : B → Type μ) where
  Holds-bind :
      (m : Result ErrorCode A) (g : A → Result ErrorCode B)
      → Holds P m
      → ((a : A) → P a → Holds Q (g a))
      → Holds Q (m >>= g)
  Holds-bind (ok a) g h q = q a h
  Holds-bind (err e) g h q = tt

update_one-Has :
    (k : String) (r : Row) (p : Row → Bool) (f : Row → Row) (rows : List Row)
    → ((x : Row) → (f x).id ≡ x.id)
    → p r ≡ false
    → Has k r rows
    → Holds (Has k r) (update_one p f rows)
unfolding update_one
update_one-Has k r p f rows h n has = elim (Bool-cases ((update_where p f rows).1 == 1)) [
  | inr z ↦ rw z tt
  | inl y ↦ rw y (record {
    keyed = update_where-IsKeyed p f rows h has.keyed;
    is_found = find-update_where k p f rows r h has.is_found ∙ ap some (if-false _ _ n);
  })
]

-- A row that a claim takes is not one that is not due.
not_taken :
    (k : String) (r s : Row) (rows : List Row) (now : ℕ)
    → find row_key k rows ≡ some r
    → is_due now r ≡ false
    → IsTaken now rows s
    → is_row s.id s.status s.lease_id r ≡ false
unfolding is_row
not_taken k r s rows now h n t =
    ground (arith, find-key row_key k r rows h, eq_iff r.id s.id, t.0, t.1, h, n)

claimed-id : (now : ℕ) (x : Row) → (claimed now x).id ≡ x.id
unfolding claimed
claimed-id now x = refl

claim_rows-Has :
    (k : String) (r : Row) (now : ℕ) (start sel rows : List Row)
    → find row_key k start ≡ some r
    → is_due now r ≡ false
    → All (IsTaken now start) sel
    → Has k r rows
    → Holds (Has k r) (claim_rows now sel rows)
unfolding claim_rows
claim_rows-Has k r now start [] rows f n t has = has
claim_rows-Has k r now start (s ∷ sel) rows f n t has =
    Holds-bind (Has k r) (Has k r) (update_one (is_row s.id s.status s.lease_id) (claimed now) rows)
      (claim_rows now sel)
      (update_one-Has k r _ (claimed now) rows (claimed-id now) (not_taken k r s start now f n t.0)
        has)
      (λ mid h. claim_rows-Has k r now start sel mid f n t.1 h)

module _ {ℓ κ} {A : Type ℓ} (P : A → Type κ) where
  Holds-then :
      (m : Result ErrorCode (Unit {0})) (n : Result ErrorCode A) → Holds P n → Holds P (m >> n)
  Holds-then (ok x) n h = h
  Holds-then (err e) n h = tt

abbrev pub StoreHas : String → Row → Store → Type 0
StoreHas k r s = Has k r s.rows

abbrev pub FirstHas {ℓ} : {A : Type ℓ} → String → Row → Store × A → Type 0
FirstHas k r x = Has k r x.0.rows

append-Has :
    (k : String) (r new : Row) (rows : List Row)
    → find row_key new.id rows ≡ none
    → Has k r rows
    → Has k r (append row_key new rows)
append-Has k r new rows e has = record {
  keyed = append-IsKeyed new rows e has.keyed;
  is_found = find-append row_key k new rows ∙ rw has.is_found refl;
}

enqueue-steps {ℓ} :
    {A : Type ℓ} (P : A → Type 0) (a b c d e : Result ErrorCode (Unit {0})) (n : Result ErrorCode A)
    → Holds P n
    → Holds P (a >> (b >> (c >> (d >> (e >> n)))))
enqueue-steps P a b c d e n h = Holds-then P a (b >> (c >> (d >> (e >> n)))) (
    Holds-then P b (c >> (d >> (e >> n)))
      (Holds-then P c (d >> (e >> n)) (Holds-then P d (e >> n) (Holds-then P e n h))))

insert_new-Has :
    (k : String) (r new : Row) (s : Store) → Has k r s.rows → Has k r (insert_new new s).0.rows
unfolding insert_new
insert_new-Has k r new s has = elim (Option-cases (find row_key new.id s.rows)) [
  | inl e ↦ rw (e, insert_new) (append-Has k r new s.rows e has)
  | inr (x, e) ↦ rw (e, insert_new) has
]

pub enqueue-Has :
    (k : String) (r : Row) (fault : Bool) (s : Store) (id hash : String) (at : ℕ) (next : Option ℕ)
    → Has k r s.rows
    → Holds (FirstHas k r) (enqueue_outbox_item fault s id hash at next)
unfolding enqueue_outbox_item
enqueue-Has k r fault s id hash at next has =
    enqueue-steps (FirstHas {A = EnqueueResult} k r) (assert_open s) (validate_string id)
      (validate_string hash) (guard (is_payload_hash hash) invalid_record)
      (guard (not fault) outbox_failed) (ok (insert_new (new_row id hash at next) s))
      (insert_new-Has k r (new_row id hash at next) s has)

claim-steps {ℓ} :
    {A : Type ℓ} (k : String) (r : Row) (s : Store) (a b c : Result ErrorCode (Unit {0}))
    (m : Result ErrorCode (List Row)) (items : A)
    → Holds (Has k r) m
    → Holds (FirstHas k r) (a >> (b >> (c >> (m >>= λ rows. ok (record s { rows = rows }, items)))))
claim-steps k r s a b c m items h =
    Holds-then _ a _
      (Holds-then _ b _ (Holds-then _ c _ (Holds-bind (Has k r) _ m _ h (λ rows q. q))))

pub claim-Has :
    (k : String) (r : Row) (fault : Bool) (s : Store) (now limit : ℕ)
    → is_due now r ≡ false
    → Has k r s.rows
    → Holds (FirstHas k r) (claim_outbox_items fault s now limit)
unfolding claim_outbox_items
claim-Has k r fault s now limit n has =
    claim-steps k r s (assert_open s) (guard (leb 1 limit && leb limit 100) invalid_record)
      (guard (not fault) outbox_failed) (claim_rows now (selected now limit s.rows) s.rows)
      (map (claimed now) (selected now limit s.rows))
      (claim_rows-Has k r now s.rows (selected now limit s.rows) s.rows has.is_found n
        (selected-IsTaken now limit s.rows has.keyed) has)

pub mark-Has :
    (k : String) (r : Row) (p : Row → Bool) (f : Row → Row) (s : Store)
    (a b c d : Result ErrorCode (Unit {0}))
    → ((x : Row) → (f x).id ≡ x.id)
    → p r ≡ false
    → Has k r s.rows
    → Holds (StoreHas k r) (
        a >> (b >> (c >> (d >> (update_one p f s.rows >>= λ rows. ok (record s { rows = rows }))))))
mark-Has k r p f s a b c d h n has = Holds-then _ a _ (
    Holds-then _ b _ (
      Holds-then _ c _ (
        Holds-then _ d _ (
          Holds-bind (Has k r) _ (update_one p f s.rows) _ (update_one-Has k r p f s.rows h n has)
            (λ rows q. q)))))
