-- ===== src/Persistence/OutboxWorker.antt =====
-- packages/persistence/src/outboxWorker.ts, `startOutboxWorker`: the timer loop of the outbox worker.
-- The scheduler's pending timers and the count of ticks that are under way stand beside the
-- worker's own variables.
pub mod Loop
mod Tests
use wats.Base.{
  ℕ, suc, ◌+◌, ◌≡◌, Bool, true, false, not, ◌&&◌, ◌||◌, Option, none, some, List, [], ◌∷◌, any, leb,
  ◌==◌, if◌then◌else◌,
}
use wats.Base.Result.{Result, ok, err, ◌>>=◌, ◌>>◌, guard}

pub data OptionsError : Type 0 where
  bad_interval bad_batch_limit bad_retry_delay : OptionsError

-- The numbers of `StartOutboxWorkerOptions`: absent (`none`), a natural number, or another value
-- (`some none`).
pub record Options : Type 0 where
  pub interval_ms : Option (Option ℕ)
  pub batch_limit : Option (Option ℕ)
  pub retry_delay_ms : Option (Option ℕ)

pub record Settings : Type 0 where
  pub interval_ms : ℕ
  pub batch_limit : ℕ
  pub retry_delay_ms : ℕ

-- `validateInteger`
pub validate_integer : OptionsError → ℕ → ℕ → Option ℕ → Result OptionsError ℕ
validate_integer e least most none = err e
validate_integer e least most (some n) = if leb least n && leb n most then ok n else err e

abbrev or_default : Option (Option ℕ) → ℕ → Option ℕ
or_default none d = some d
or_default (some x) d = x

pub validate_options : Options → Result OptionsError Settings
validate_options o = do
  interval ← validate_integer bad_interval 100 3600000 (or_default o.interval_ms 5000)
  limit ← validate_integer bad_batch_limit 1 100 (or_default o.batch_limit 10)
  delay ← validate_integer bad_retry_delay 0 86400000 (or_default o.retry_delay_ms 30000)
  ok (record { interval_ms = interval; batch_limit = limit; retry_delay_ms = delay })

pub record Worker : Type 0 where
  pub stopped : Bool
  pub in_flight : Bool
  pub timer_handle : Option ℕ
  -- The call of `stop` that stopped the worker waits for the tick that is under way.
  pub stop_waits : Bool
  -- The scheduler's timers, and the next handle that it gives.
  pub timers : List ℕ
  pub next_handle : ℕ
  -- The ticks that are under way, and those that ever began.
  pub running : ℕ
  pub started : ℕ

pub remove : ℕ → List ℕ → List ℕ
remove h [] = []
remove h (x ∷ xs) = if x == h then xs else x ∷ remove h xs

-- `arm`
pub arm : Worker → Worker
arm w = if w.stopped then w else record w {
  timer_handle = some w.next_handle;
  timers = w.next_handle ∷ w.timers;
  next_handle = suc w.next_handle;
}

-- The scheduler takes the timer that it fires.
pub take_timer : ℕ → Worker → Worker
take_timer h w = record w { timers = remove h w.timers }

-- `fire` up to its first `await`.
pub fire : Worker → Worker
fire w = if w.stopped || w.in_flight then record w { timer_handle = none } else record w {
  timer_handle = none;
  in_flight = true;
  running = suc w.running;
  started = suc w.started;
}

-- The `finally` clause of `fire`, which ends a tick however it went; `left` ticks are under way
-- after it.
pub finish : ℕ → Worker → Worker
finish left w =
    let done : Worker = record w { in_flight = false; running = left } in
    if w.stopped then record done { stop_waits = false } else arm done

-- `stop`, up to its `await`.
pub stop : Worker → Worker
stop w = if w.stopped then w else record w {
  stopped = true;
  timer_handle = none;
  timers = elim w.timer_handle [ none ↦ w.timers | some h ↦ remove h w.timers ];
  stop_waits = w.in_flight;
}

-- The worker that `startOutboxWorker` leaves behind.
pub start : Worker
start = arm (record {
  stopped = false;
  in_flight = false;
  timer_handle = none;
  stop_waits = false;
  timers = [];
  next_handle = 0;
  running = 0;
  started = 0;
})

-- What can happen next: a pending timer fires, a tick that is under way ends, or `stop` is called.
-- A scheduler may also run the callback of a timer again, or of one that was cleared, during a tick
-- or after a stop.
pub data Step : Worker → Worker → Type 0 where
  fires : (w : Worker) (h : ℕ) → any (λ x. x == h) w.timers ≡ true → Step w (fire (take_timer h w))
  fires_again : (w : Worker) → (w.stopped || w.in_flight) ≡ true → Step w (fire w)
  ends : (w : Worker) (left : ℕ) → w.running ≡ suc left → Step w (finish left w)
  stops : (w : Worker) → Step w (stop w)

pub data Steps : Worker → Worker → Type 0 where
  here : (w : Worker) → Steps w w
  then_step : (w v u : Worker) → Step w v → Steps v u → Steps w u
