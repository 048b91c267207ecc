-- ===== src/Persistence/OutboxRun.antt =====
-- packages/persistence/src/outbox.ts, `runOutboxWorkerOnce`: one run claims items, lets the handler
-- work on each, and marks it. While a handler runs, other workers may call the store. Times are
-- milliseconds; a time of the next attempt after the year 9999 is left out.
pub mod Items
pub mod Settled
mod Tests
use wats.Base.{
  ℕ, suc, ◌+◌, Bool, true, false, Option, none, some, List, [], ◌∷◌, length, leb, if◌then◌else◌,
}
use wats.Base.Result.{Result, ok, err, ◌>>=◌, ◌>>◌, guard}
use wats.Persistence.Validation.{ErrorCode}
use wats.Persistence.Outbox.{
  Row, Store, claim_outbox_items, mark_outbox_item_failed, mark_outbox_item_succeeded,
}
use wats.Persistence.Outbox.History.{Call, run}

-- `OutboxWorkerOptions`; a delay that is no integer or is negative is `none`.
pub record Options : Type 0 where
  pub now : ℕ
  pub limit : ℕ
  pub retry_delay_ms : Option ℕ

-- `OutboxWorkerReport`
pub record Report : Type 0 where
  pub processed : ℕ
  pub succeeded : ℕ
  pub failed : ℕ

-- What the run rejects with: an error of the store, or the range error of the delay.
pub data RunError : Type 0 where
  store_error : ErrorCode → RunError
  bad_retry_delay : RunError

-- What happens at one item: the calls of others while the handler runs, whether the handler returns
-- without a throw, and whether the statements of the marks fail.
pub record Turn : Type 0 where
  pub others : List Call
  pub handled : Bool
  pub success_fault : Bool
  pub failure_fault : Bool

-- `nextAttemptIso`
pub next_attempt : ℕ → Option ℕ → Result RunError ℕ
next_attempt now none = err bad_retry_delay
next_attempt now (some delay) = if leb delay 86400000 then ok (now + delay) else err bad_retry_delay

-- After an item: the store, and whether the item succeeded.
abbrev pub Step : Type 0
Step = Store × Result RunError Bool

pub after_failure : Store → Result ErrorCode Store → Step
after_failure s (ok s') = (s', ok false)
after_failure s (err e) = (s, err (store_error e))

pub fail_at : Options → Turn → Store → Row → Result RunError ℕ → Step
fail_at o t s item (err e) = (s, err e)
fail_at o t s item (ok at) =
    after_failure s (mark_outbox_item_failed t.failure_fault s item.id item.lease_id at o.now)

-- The `catch` clause.
pub fail_item : Options → Turn → Store → Row → Step
fail_item o t s item = fail_at o t s item (next_attempt o.now o.retry_delay_ms)

pub after_success : Options → Turn → Store → Row → Result ErrorCode Store → Step
after_success o t s item (ok s') = (s', ok true)
after_success o t s item (err e) = fail_item o t s item

-- After the handler, in the store that others leave.
pub mark_item : Options → Turn → Store → Row → Step
mark_item o t s item =
    if t.handled
    then after_success o t s item
        (mark_outbox_item_succeeded t.success_fault s item.id item.lease_id o.now)
    else fail_item o t s item

-- The body of the loop.
pub run_item : Options → Turn → Store → Row → Step
run_item o t s item = mark_item o t (run t.others s) item

-- `succeeded` and `failed`, or a rejection.
abbrev pub Tally : Type 0
Tally = Store × Result RunError (ℕ × ℕ)

pub counted : Bool → Tally → Tally
counted done (s, err e) = (s, err e)
counted true (s, ok (a, b)) = (s, ok (suc a, b))
counted false (s, ok (a, b)) = (s, ok (a, suc b))

pub next_item : Step → (Store → Tally) → Tally
next_item (s, err e) more = (s, err e)
next_item (s, ok done) more = counted done (more s)

module _ (o : Options) (turn : Row → Turn) where
  -- The loop over the claimed items.
  pub work : List Row → Store → Tally
  work [] s = (s, ok (0, 0))
  work (x ∷ xs) s = next_item (run_item o (turn x) s x) (work xs)

  pub reported : ℕ → Tally → Store × Result RunError Report
  reported n (s, err e) = (s, err e)
  reported n (s, ok (a, b)) = (s, ok (record { processed = n; succeeded = a; failed = b }))

  pub after_claim : Store → Result ErrorCode (Store × List Row) → Store × Result RunError Report
  after_claim s (err e) = (s, err (store_error e))
  after_claim s (ok (s', items)) = reported (length items) (work items s')

  -- `runOutboxWorkerOnce`; `fault` says that the claim's statements fail.
  pub run_outbox_worker_once : Bool → Store → Store × Result RunError Report
  run_outbox_worker_once fault s = after_claim s (claim_outbox_items fault s o.now o.limit)
