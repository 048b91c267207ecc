-- ===== src/Persistence/Outbox/History.antt =====
-- A row stands unchanged through every history of calls that spare it.
use Prim.Native.String.{String}
use wats.Base.{ℕ, ◌≡◌, refl, Bool, false, not, Option, List, [], ◌∷◌, All}
use wats.Base.Result.{Result, ok, err, guard}
use wats.Persistence.Validation.{ErrorCode, validate_string, invalid_record, outbox_failed}
use wats.Persistence.Outbox.{
  assert_open, is_lease_id, processing, Row, Store, is_due, is_row, failed, finished,
  enqueue_outbox_item, claim_outbox_items, mark_outbox_item_failed, mark_outbox_item_succeeded,
}
use wats.Persistence.Outbox.Kept.{Has, Holds, StoreHas, FirstHas, enqueue-Has, claim-Has, mark-Has}

pub data Call : Type 0 where
  enqueues : Bool → String → String → ℕ → Option ℕ → Call
  claims : Bool → ℕ → ℕ → Call
  fails : Bool → String → ℕ → ℕ → ℕ → Call
  succeeds : Bool → String → ℕ → ℕ → Call

abbrev or_same : Store → Result ErrorCode Store → Store
or_same s (ok s') = s'
or_same s (err e) = s

abbrev or_first {ℓ} : {A : Type ℓ} → Store → Result ErrorCode (Store × A) → Store
or_first s (ok x) = x.0
or_first s (err e) = s

unfoldable pub step : Store → Call → Store
step s (enqueues fault id hash at next) = or_first s (enqueue_outbox_item fault s id hash at next)
step s (claims fault now limit) = or_first s (claim_outbox_items fault s now limit)
step s (fails fault id lease next at) = or_same s (mark_outbox_item_failed fault s id lease next at)
step s (succeeds fault id lease at) = or_same s (mark_outbox_item_succeeded fault s id lease at)

unfoldable pub run : List Call → Store → Store
run [] s = s
run (c ∷ calls) s = run calls (step s c)

-- The call is no claim at a time when the row is due, and no mark with the lease that it is
-- processed under.
abbrev pub Spares : Row → Call → Type 0
Spares r (enqueues fault id hash at next) = Unit
Spares r (claims fault now limit) = is_due now r ≡ false
Spares r (fails fault id lease next at) = is_row id processing lease r ≡ false
Spares r (succeeds fault id lease at) = is_row id processing lease r ≡ false

or_same-Has :
    (k : String) (r : Row) (s : Store) (m : Result ErrorCode Store)
    → Holds (StoreHas k r) m
    → StoreHas k r s
    → StoreHas k r (or_same s m)
or_same-Has k r s (ok s') h has = h
or_same-Has k r s (err e) h has = has

or_first-Has {ℓ} :
    {A : Type ℓ} (k : String) (r : Row) (s : Store) (m : Result ErrorCode (Store × A))
    → Holds (FirstHas k r) m
    → StoreHas k r s
    → StoreHas k r (or_first s m)
or_first-Has k r s (ok x) h has = h
or_first-Has k r s (err e) h has = has

step-Has :
    (k : String) (r : Row) (s : Store) (c : Call)
    → Spares r c
    → Has k r s.rows
    → Has k r (step s c).rows
unfolding step mark_outbox_item_failed mark_outbox_item_succeeded
step-Has k r s (enqueues fault id hash at next) p has =
    or_first-Has k r s _ (enqueue-Has k r fault s id hash at next has) has
step-Has k r s (claims fault now limit) p has =
    or_first-Has k r s _ (claim-Has k r fault s now limit p has) has
step-Has k r s (fails fault id lease next at) p has =
    or_same-Has k r s _
      (mark-Has k r (is_row id processing lease) (failed next at) s (assert_open s)
        (validate_string id) (guard (is_lease_id lease) invalid_record)
        (guard (not fault) outbox_failed) (λ x. refl) p has)
      has
step-Has k r s (succeeds fault id lease at) p has =
    or_same-Has k r s _
      (mark-Has k r (is_row id processing lease) (finished at) s (assert_open s)
        (validate_string id) (guard (is_lease_id lease) invalid_record)
        (guard (not fault) outbox_failed) (λ x. refl) p has)
      has

-- Take an outbox with unique ids, and a row of it that the calls spare: none is a claim at a time
-- when the row is due, or a mark with its id and the lease that it is processed under. Then the row
-- stands unchanged under its key after the calls, and the ids are still unique.
pub run-Has :
    (k : String) (r : Row) (calls : List Call) (s : Store)
    → All (Spares r) calls
    → Has k r s.rows
    → Has k r (run calls s).rows
unfolding run
run-Has k r [] s p has = has
run-Has k r (c ∷ calls) s p has = run-Has k r calls (step s c) p.1 (step-Has k r s c p.0 has)
