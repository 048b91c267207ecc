-- ===== src/Persistence/OutboxRun/Tests.antt =====
-- A run over two items: the handler returns for one and throws for the other, and another worker
-- claims in vain meanwhile.
use text.Mathlib.Text.{◌==◌ as str_eq}
use wats.Base.{◌≡◌, refl, false, none, some, [], ◌∷◌}
use wats.Base.Result.{err}
use wats.Persistence.Validation.{is_record_string}
use wats.Persistence.Outbox.{
  Row, Store, pending, is_due, is_row, claimed, claim_outbox_items, claim_rows, selected, ordered,
  insert_ordered, update_one, update_where, comes_first, mark_outbox_item_failed,
  mark_outbox_item_succeeded,
}
use wats.Persistence.Outbox.History.{claims, run, step}
use wats.Persistence.OutboxRun.{
  Options, Turn, bad_retry_delay, run_outbox_worker_once, after_claim, work, next_item, counted,
  reported, run_item, mark_item, fail_item, fail_at, next_attempt, after_failure, after_success,
}

abbrev first : Row
first = record {
  id = "a";
  status = pending;
  attempts = 0;
  lease_id = 0;
  next_attempt_at = some 5;
  payload_hash = "h";
  created_at = 5;
  updated_at = 5;
}

abbrev second : Row
second = record first { id = "b"; created_at = 6; next_attempt_at = some 6 }

abbrev outbox : Store
outbox = record { closed = false; rows = first ∷ second ∷ [] }

abbrev options : Options
options = record { now = 1000; limit = 10; retry_delay_ms = some 60000 }

abbrev turn : Row → Turn
turn x = record {
  others = claims false 1001 10 ∷ [];
  handled = str_eq x.id "a";
  success_fault = false;
  failure_fault = false;
}

-- A delay out of range is found only when a handler throws: the run rejects, and the items after it
-- stay claimed.
rejects_bad_delay :
    (run_outbox_worker_once
      (record options { retry_delay_ms = none })
      (λ x. record (turn x) { handled = false })
      false
      outbox).1
    ≡ err bad_retry_delay
unfolding run_outbox_worker_once after_claim claim_outbox_items claim_rows selected ordered
    insert_ordered comes_first is_due claimed update_one update_where is_row mark_outbox_item_failed
    mark_outbox_item_succeeded is_record_string work next_item counted reported run_item mark_item
    fail_item fail_at next_attempt after_failure after_success run step
rejects_bad_delay = refl
