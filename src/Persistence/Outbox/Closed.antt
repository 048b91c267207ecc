-- ===== src/Persistence/Outbox/Closed.antt =====
-- No call of the outbox opens or closes the store.
use wats.Base.{◌≡◌, ◌∙◌, refl, inl, inr, List, [], ◌∷◌, arith, Option-cases}
use wats.Persistence.Table.{find}
use wats.Persistence.Outbox.{
  Store, Row, row_key, new_row, insert_new, enqueue_outbox_item, claim_outbox_items,
  mark_outbox_item_failed, mark_outbox_item_succeeded,
}
use wats.Persistence.Outbox.History.{Call, enqueues, claims, fails, succeeds, step, run}

insert_new-closed : (r : Row) (s : Store) → (insert_new r s).0.closed ≡ s.closed
unfolding insert_new
insert_new-closed r s = elim (Option-cases (find row_key r.id s.rows)) [
  | inl e ↦ rw (e, insert_new) refl
  | inr (x, e) ↦ rw (e, insert_new) refl
]

step-closed : (s : Store) (c : Call) → (step s c).closed ≡ s.closed
unfolding step enqueue_outbox_item claim_outbox_items mark_outbox_item_failed
    mark_outbox_item_succeeded
step-closed s (enqueues fault id hash at next) =
    ground (arith, insert_new-closed (new_row id hash at next) s)
step-closed s (claims fault now limit) = ground arith
step-closed s (fails fault id lease next at) = ground arith
step-closed s (succeeds fault id lease at) = ground arith

pub run-closed : (calls : List Call) (s : Store) → (run calls s).closed ≡ s.closed
unfolding run
run-closed [] s = refl
run-closed (c ∷ calls) s = run-closed calls (step s c) ∙ step-closed s c
