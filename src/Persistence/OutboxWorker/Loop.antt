-- ===== src/Persistence/OutboxWorker/Loop.antt =====
-- The invariant of the timer loop, and what holds after a stop.
use wats.Base.{
  ℕ, suc, ◌≡◌, ◌∙◌, refl, Bool, true, false, ◌||◌, ◌&&◌, Option, none, some, List, [], ◌∷◌, any,
  arith, ◌==◌, ==_refl, if◌then◌else◌,
}
use wats.Persistence.OutboxWorker.{
  Worker, remove, arm, take_timer, fire, finish, stop, start, Step, fires, fires_again, ends, stops,
  Steps, here, then_step,
}

abbrev pub timers_of : Option ℕ → List ℕ
timers_of none = []
timers_of (some h) = h ∷ []

abbrev is_set : Option ℕ → Bool
is_set none = false
is_set (some h) = true

-- A tick is under way exactly while `in_flight` is set, and then alone. The scheduler has the timer
-- of the handle and no other. A timer is set exactly while the worker is neither stopped nor in
-- flight. The call of `stop` waits exactly while the worker is stopped and a tick is under way.
pub record IsSound (w : Worker) : Type 0 where
  pub alone : w.running ≡ (if w.in_flight then 1 else 0)
  pub handled : w.timers ≡ timers_of w.timer_handle
  pub armed : is_set w.timer_handle ≡ (if w.stopped || w.in_flight then false else true)
  pub waits : w.stop_waits ≡ (w.in_flight && w.stopped)

remove-only : (h : ℕ) → remove h (h ∷ []) ≡ []
unfolding remove
remove-only h = ground (arith, ==_refl h)

start-IsSound : IsSound start
unfolding start arm
start-IsSound = record { alone = refl; handled = refl; armed = refl; waits = refl }

fire-IsSound :
    (w : Worker) (h : ℕ)
    → any (λ x. x == h) w.timers ≡ true
    → IsSound w
    → IsSound (fire (take_timer h w))
unfolding fire take_timer remove
fire-IsSound w h p s = record {
  alone = ground (arith, s.alone, s.handled, s.armed, p);
  handled = ground (arith, s.handled, s.armed, p);
  armed = ground (arith, s.handled, s.armed, p);
  waits = ground (arith, s.handled, s.armed, s.waits, p);
}

fire_again-IsSound : (w : Worker) → (w.stopped || w.in_flight) ≡ true → IsSound w → IsSound (fire w)
unfolding fire
fire_again-IsSound w p s = record {
  alone = ground (arith, s.alone, p);
  handled = ground (arith, s.handled, s.armed, p);
  armed = ground (arith, s.armed, p);
  waits = ground (arith, s.waits, p);
}

finish-IsSound :
    (w : Worker) (left : ℕ) → w.running ≡ suc left → IsSound w → IsSound (finish left w)
unfolding finish arm
finish-IsSound w left p s = record {
  alone = ground (arith, s.alone, p);
  handled = ground (arith, s.alone, s.handled, s.armed, p);
  armed = ground (arith, s.alone, s.armed, p);
  waits = ground (arith, s.alone, s.waits, p);
}

stop-IsSound : (w : Worker) → IsSound w → IsSound (stop w)
unfolding stop remove
stop-IsSound w s = record {
  alone = ground (arith, s.alone);
  handled = ground (arith, s.handled, s.armed);
  armed = ground (arith, s.armed);
  waits = ground (arith, s.waits);
}

step-IsSound : (w v : Worker) → Step w v → IsSound w → IsSound v
step-IsSound _ _ (fires w h p) s = fire-IsSound w h p s
step-IsSound _ _ (fires_again w p) s = fire_again-IsSound w p s
step-IsSound _ _ (ends w left p) s = finish-IsSound w left p s
step-IsSound _ _ (stops w) s = stop-IsSound w s

Steps-IsSound : (w v : Worker) → Steps w v → IsSound w → IsSound v
Steps-IsSound _ _ (here w) s = s
Steps-IsSound _ _ (then_step w v u x xs) s = Steps-IsSound v u xs (step-IsSound w v x s)

-- Whatever timers fire, ticks end and stops are called, in any order, even with a scheduler that
-- runs a callback again during a tick or after a stop: at most one tick is under way, namely while
-- `in_flight` is set; the scheduler has no timer but the worker's own; one is pending exactly while
-- the worker is neither stopped nor in flight; and the call of `stop` that stopped the worker waits
-- exactly until no tick is under way.
pub reached-IsSound : (w : Worker) → Steps start w → IsSound w
reached-IsSound w xs = Steps-IsSound start w xs start-IsSound

-- A stopped worker has no timer left.
stopped-timers : (w : Worker) → IsSound w → w.stopped ≡ true → w.timers ≡ []
stopped-timers w s h = ground (arith, s.handled, s.armed)

step-stopped :
    (w v : Worker)
    → Step w v
    → IsSound w
    → w.stopped ≡ true
    → (v.stopped ≡ true) × (v.started ≡ w.started)
unfolding fire take_timer finish stop
step-stopped _ _ (fires w h p) s q = ground (arith, p, stopped-timers w s q)
step-stopped _ _ (fires_again w p) s q = ground (arith, p)
step-stopped _ _ (ends w left p) s q = ground arith
step-stopped _ _ (stops w) s q = ground arith

Steps-stopped :
    (w v : Worker)
    → Steps w v
    → IsSound w
    → w.stopped ≡ true
    → (v.stopped ≡ true) × (v.started ≡ w.started) × (v.timers ≡ [])
Steps-stopped _ _ (here w) s q = (q, refl, stopped-timers w s q)
Steps-stopped _ _ (then_step w v u x xs) s q =
    let one = step-stopped w v x s q in
    let more = Steps-stopped v u xs (step-IsSound w v x s) one.0 in (more.0, more.1 ∙ one.1, more.2)

-- Once a worker that was started has been stopped, it stays stopped, no timer is pending and no
-- further tick begins, even if the scheduler runs a callback again.
pub reached-stopped :
    (w v : Worker)
    → Steps start w
    → w.stopped ≡ true
    → Steps w v
    → (v.stopped ≡ true) × (v.started ≡ w.started) × (v.timers ≡ [])
reached-stopped w v before h after = Steps-stopped w v after (reached-IsSound w before) h
