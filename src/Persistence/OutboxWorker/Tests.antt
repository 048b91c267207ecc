-- ===== src/Persistence/OutboxWorker/Tests.antt =====
-- A worker that ticks once and is stopped during the tick.
use wats.Base.{◌≡◌, refl, true, []}
use wats.Persistence.OutboxWorker.{
  Worker, Steps, here, then_step, fires, fires_again, ends, stops, start, arm, fire, take_timer,
  finish, stop,
}
use wats.Persistence.OutboxWorker.Loop.{IsSound, reached-IsSound, reached-stopped}

abbrev ticking : Worker
ticking = fire (take_timer 0 start)

to_ticking : Steps start ticking
unfolding start arm
to_ticking = then_step start ticking ticking (fires start 0 refl) (here ticking)

to_stopped : Steps start (stop ticking)
unfolding start arm
to_stopped =
    then_step start ticking (stop ticking) (fires start 0 refl)
      (then_step ticking (stop ticking) (stop ticking) (stops ticking) (here (stop ticking)))

to_end : Steps (stop ticking) (finish 0 (stop ticking))
unfolding start arm fire take_timer stop
to_end =
    then_step (stop ticking) (finish 0 (stop ticking)) (finish 0 (stop ticking))
      (ends (stop ticking) 0 refl) (here (finish 0 (stop ticking)))

-- The callback runs again during the tick, before the stop.
to_overlap : Steps start (stop (fire ticking))
unfolding start arm fire take_timer
to_overlap = then_step start ticking (stop (fire ticking)) (fires start 0 refl) (
    then_step ticking (fire ticking) (stop (fire ticking)) (fires_again ticking refl) (
      then_step (fire ticking) (stop (fire ticking)) (stop (fire ticking)) (stops (fire ticking))
        (here (stop (fire ticking)))))

overlap_one_tick : (fire ticking).running ≡ 1
unfolding start arm fire take_timer
overlap_one_tick = refl

reached-IsSound_example : IsSound (stop (fire ticking))
reached-IsSound_example = reached-IsSound (stop (fire ticking)) to_overlap

reached-stopped_example :
    ((finish 0 (stop ticking)).stopped ≡ true)
    × ((finish 0 (stop ticking)).started ≡ (stop ticking).started)
    × ((finish 0 (stop ticking)).timers ≡ [])
unfolding start arm fire take_timer stop
reached-stopped_example =
    reached-stopped (stop ticking) (finish 0 (stop ticking)) to_stopped refl to_end
