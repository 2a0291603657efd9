-- ===== src/Timers.antt =====
-- src/second/main.c and src/second/hrtimer.c: a timer and a high resolution timer, each of which
-- starts again when it has fired.
pub mod Spacing
mod Tests
use learn_k.Base.{ℕ, ◌+◌, ◌-◌, ◌*◌, ◌/◌, Option, none, some, List, [], ◌∷◌, leb, if◌then◌else◌}

-- The clock, when the timer expires if it is set, and when the callback has run, the last time first.
-- The clock is that of the kernel, `jiffies` or nanoseconds, without its wrap-around.
pub record State : Type 0 where
  pub now : ℕ
  pub expires : Option ℕ
  pub fired : List ℕ

-- <linux/timer.h>: `mod_timer` sets the timer, whether or not it is set; `del_timer_sync` and
-- `hrtimer_cancel` unset it and wait for a callback that runs.
abbrev pub mod_timer : ℕ → State → State
mod_timer at s = record s { expires = some at }

abbrev pub del_timer_sync : State → State
del_timer_sync s = record s { expires = none }

-- `period` is `msecs_to_jiffies(2000)`.
unfoldable pub timer_callback : (period : ℕ) → ℕ → State → State
timer_callback period expired s = mod_timer (s.now + period) (record s { fired = s.now ∷ s.fired })

unfoldable pub timer_init : (period : ℕ) → State → State
timer_init period s = mod_timer (s.now + period) s

unfoldable pub timer_exit : State → State
timer_exit s = del_timer_sync s

-- `hrtimer_forward_now`: the first time after now that is a number of intervals behind `expired`
abbrev pub hrtimer_forward_now : (interval : ℕ) → ℕ → State → State
hrtimer_forward_now interval expired s =
    mod_timer (expired + ((s.now - expired) / interval + 1) * interval) s

-- The callback returns HRTIMER_RESTART.
unfoldable pub hrtimer_callback : (interval : ℕ) → ℕ → State → State
hrtimer_callback interval expired s =
    hrtimer_forward_now interval expired (record s { fired = s.now ∷ s.fired })

unfoldable pub hrtimer_init : (interval : ℕ) → State → State
hrtimer_init interval s = mod_timer (s.now + interval) s

unfoldable pub hrtimer_exit : State → State
hrtimer_exit s = del_timer_sync s

-- The clock goes on, or the kernel looks for timers that have expired, at a time of its choice.
pub data Event : Type 0 where
  tick softirq : Event

module _ (callback : ℕ → State → State) where
  unfoldable pub step : Event → State → State
  step tick s = record s { now = s.now + 1 }
  step softirq s = elim s.expires [ none ↦ s | some at ↦ if leb at s.now then callback at s else s ]

  unfoldable pub steps : List Event → State → State
  unfolding step
  steps [] s = s
  steps (e ∷ es) s = steps es (step e s)
