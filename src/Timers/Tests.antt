-- ===== src/Timers/Tests.antt =====
-- Runs of the timers, with late looks.
use learn_k.Base.{◌≡◌, refl, none, List, [], ◌∷◌}
use learn_k.Timers.{
  State, Event, tick, softirq, timer_callback, timer_init, timer_exit, hrtimer_callback,
  hrtimer_init, hrtimer_exit, step, steps,
}
use learn_k.Timers.Spacing.{Spaced, OnGrid, timer-Spaced, hrtimer-OnGrid}

abbrev loaded : State
loaded = record { now = 5; expires = none; fired = [] }

-- The kernel is late for the first run.
abbrev events : List Event
events = tick ∷ tick ∷ softirq ∷ tick ∷ softirq ∷ tick ∷ softirq ∷ tick ∷ softirq ∷ []

times : (steps (hrtimer_callback 2) (tick ∷ events) (hrtimer_init 2 loaded)).fired ≡ 11 ∷ 9 ∷ 8 ∷ []
unfolding steps step hrtimer_callback hrtimer_init
times = refl

later : (steps (timer_callback 2) (tick ∷ events) (timer_init 2 loaded)).fired ≡ 10 ∷ 8 ∷ []
unfolding steps step timer_callback timer_init
later = refl

stopped : Spaced 5 2 (timer_exit (steps (timer_callback 2) events (timer_init 2 loaded))).fired
unfolding timer_exit timer_init steps
stopped = (timer-Spaced 2 events [] loaded refl).0

hrtimer-OnGrid_example :
    OnGrid 5 2 (steps (hrtimer_callback 2) events (hrtimer_init 2 loaded))
    × ((steps
          (hrtimer_callback 2)
          events
          (hrtimer_exit (steps (hrtimer_callback 2) events (hrtimer_init 2 loaded)))).fired
        ≡ (steps (hrtimer_callback 2) events (hrtimer_init 2 loaded)).fired)
    × ((steps
          (hrtimer_callback 2)
          events
          (hrtimer_exit (steps (hrtimer_callback 2) events (hrtimer_init 2 loaded)))).expires
        ≡ none)
hrtimer-OnGrid_example = hrtimer-OnGrid 2 events events loaded refl
