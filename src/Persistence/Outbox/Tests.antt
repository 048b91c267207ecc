-- ===== src/Persistence/Outbox/Tests.antt =====
-- An outbox whose item is claimed, and the theorem on the calls that follow.
use Prim.Native.String.{String}
use text.Mathlib.TextEquality.{eq_iff}
use wats.Base.{◌≡◌, ◌≢◌, ◌≤◌, refl, arith, length, inl, inr, false, none, some, List, [], ◌∷◌}
use wats.Persistence.Validation.{is_record_string}
use wats.Persistence.Table.{find}
use wats.Persistence.Outbox.{
  Row, Store, processing, succeeded, is_due, is_row, claim_outbox_items, claim_rows, selected,
  ordered, insert_ordered, claimed, update_one, update_where, mark_outbox_item_succeeded,
  mark_outbox_item_failed, row_key,
}
use wats.Persistence.Outbox.Kept.{Has}
use wats.Persistence.Outbox.History.{Call, claims, fails, succeeds, run, step}
use wats.Persistence.Outbox.Lease.{run-leased}

abbrev item : Row
item = record {
  id = "a";
  status = processing;
  attempts = 1;
  lease_id = 1;
  next_attempt_at = none;
  payload_hash = "h";
  created_at = 5;
  updated_at = 1000;
}

abbrev outbox : Store
outbox = record { closed = false; rows = item ∷ [] }

-- A claim within the lease, and marks with an old lease.
abbrev calls : List Call
calls = claims false 300999 10 ∷ fails false "a" 2 5 6 ∷ succeeds false "b" 1 7 ∷ []

outbox-Has : Has "a" item outbox.rows
unfolding find
outbox-Has = record { keyed = (refl, tt); is_found = refl }

run-leased_example :
    Has "a" item (run calls outbox).rows
    × (find row_key "a" (step (run calls outbox) (claims false 301000 10)).rows
        ≡ some (record item {
          attempts = 2;
          lease_id = 2;
          next_attempt_at = none;
          updated_at = 301000;
        }))
run-leased_example =
    run-leased "a" item calls outbox 301000 10 refl outbox-Has refl
      (omega arith, (inr (omega arith), (inl other_id, tt))) (omega arith) (omega arith)
      (omega arith) room
  where
    other_id : ◌≢◌ {A = String} "b" "a"
    other_id = λ e. cc ((eq_iff "b" "a").1 e)

    room : length (run calls outbox).rows ≤ 10
    room =
        unfold run step claim_outbox_items claim_rows selected ordered insert_ordered is_due
          update_one update_where is_row claimed mark_outbox_item_succeeded mark_outbox_item_failed
          is_record_string in
        omega arith

-- The lease has run out: the item is claimed again, with the next lease.
claim_after_lease : (step outbox (claims false 301000 10)).rows ≡ claimed 301000 item ∷ []
unfolding step claim_outbox_items claim_rows selected ordered insert_ordered is_due update_one
    update_where is_row claimed
claim_after_lease = refl

-- A mark with the old lease then fails, and the one with the new lease ends the item.
marks_by_lease :
    (run
      (claims false 301000 10 ∷ succeeds false "a" 1 8 ∷ succeeds false "a" 2 9 ∷ [])
      outbox).rows
    ≡ record (claimed 301000 item) { status = succeeded; updated_at = 9 } ∷ []
unfolding run step claim_outbox_items claim_rows selected ordered insert_ordered is_due update_one
    update_where is_row claimed mark_outbox_item_succeeded is_record_string
marks_by_lease = refl
