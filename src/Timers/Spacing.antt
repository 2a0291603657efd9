-- ===== src/Timers/Spacing.antt =====
-- When the callbacks run, in any order of ticks and looks.
use learn_k.Base.{
  ℕ, ◌+◌, ◌-◌, ◌*◌, ◌/◌, ◌≤◌, ◌<◌, ◌≡◌, refl, ap, sym, subst, none, some, List, [], ◌∷◌, arith, leb,
  if◌then◌else◌, Bool-cases, inl, inr, length,
}
use native.Mathlib.Nat.{add-mul, mul-le-mul_right}
use learn_k.Timers.{
  State, timer_callback, timer_init, timer_exit, hrtimer_callback, hrtimer_init, hrtimer_exit,
  Event, tick, softirq, step, steps,
}

-- the last of the times, or the start
abbrev pub last_or : ℕ → List ℕ → ℕ
last_or start [] = start
last_or start (t ∷ ts) = t

-- Each time is at least a period behind the one before it, the first behind the start.
abbrev pub Spaced : (start period : ℕ) → List ℕ → Type 0
Spaced start period [] = Unit
Spaced start period (t ∷ ts) = (last_or start ts + period ≤ t) × Spaced start period ts

-- The timer is set for a period after its last run.
pub record IsArmed (start period : ℕ) (s : State) : Type 0 where
  pub set : s.expires ≡ some (last_or start s.fired + period)
  pub spaced : Spaced start period s.fired

step-IsArmed :
    (start period : ℕ) (e : Event) (s : State)
    → IsArmed start period s
    → IsArmed start period (step (timer_callback period) e s)
unfolding step timer_callback
step-IsArmed start period tick s is = record { set = is.set; spaced = is.spaced }
step-IsArmed start period softirq s is =
    elim (Bool-cases (leb (last_or start s.fired + period) s.now)) [
      | inl late ↦
          rw (step, is.set, late) (record { set = refl; spaced = (ground arith, is.spaced) })
      | inr early ↦ rw (step, is.set, early) is
    ]

steps-IsArmed :
    (start period : ℕ) (es : List Event) (s : State)
    → IsArmed start period s
    → IsArmed start period (steps (timer_callback period) es s)
unfolding steps
steps-IsArmed start period [] s is = is
steps-IsArmed start period (e ∷ es) s is =
    steps-IsArmed start period es (step (timer_callback period) e s)
      (step-IsArmed start period e s is)

look-unset :
    (callback : ℕ → State → State) (s : State) → s.expires ≡ none → step callback softirq s ≡ s
unfolding step
look-unset callback s n =
    ap (λ e. elim e [ none ↦ s | some at ↦ if leb at s.now then callback at s else s ]) n

-- What is not set does not fire.
steps-unset :
    (callback : ℕ → State → State) (es : List Event) (s : State)
    → s.expires ≡ none
    → ((steps callback es s).fired ≡ s.fired) × ((steps callback es s).expires ≡ none)
unfolding steps step
steps-unset callback [] s n = (refl, n)
steps-unset callback (tick ∷ es) s n = steps-unset callback es (record s { now = s.now + 1 }) n
steps-unset callback (softirq ∷ es) s n =
    subst (λ t. ((steps callback es t).fired ≡ s.fired) × ((steps callback es t).expires ≡ none))
      (sym (look-unset callback s n)) (steps-unset callback es s n)

-- Whenever the kernel looks at the timers, between the loading of src/second/main.c and its unloading
-- the callback runs a period after the loading at the earliest, and each time a period or more after
-- the last; it does not run after the unloading.
pub timer-Spaced :
    (period : ℕ) (before after : List Event) (s : State)
    → s.fired ≡ []
    → let stopped = timer_exit (steps (timer_callback period) before (timer_init period s)) in
      let end = steps (timer_callback period) after stopped in
      Spaced s.now period end.fired × (end.fired ≡ stopped.fired) × (end.expires ≡ none)
unfolding timer_init timer_exit
timer-Spaced period before after s none_yet =
    let armed =
      steps-IsArmed s.now period before (timer_init period s)
        (record { set = rw none_yet refl; spaced = rw none_yet tt }) in
    let rest = steps-unset (timer_callback period) after _ refl in
    (rw rest.0 armed.spaced, rest.0, rest.1)

-- The timer is set to a number of intervals behind the start, more than the callback has had runs, and
-- each run has had an interval of its own.
pub record OnGrid (start interval : ℕ) (s : State) : Type 0 where
  pub turn : ℕ
  pub set : s.expires ≡ some (start + turn * interval)
  pub ahead : length s.fired < turn
  pub runs : start + length s.fired * interval ≤ s.now

step-OnGrid :
    (start interval : ℕ) (e : Event) (s : State)
    → OnGrid start interval s
    → OnGrid start interval (step (hrtimer_callback interval) e s)
unfolding step hrtimer_callback
step-OnGrid start interval tick s on = record {
  turn = on.turn;
  set = on.set;
  ahead = on.ahead;
  runs = omega (arith, on.runs);
}
step-OnGrid start interval softirq s on =
    elim (Bool-cases (leb (start + on.turn * interval) s.now)) [
      | inl late ↦
          let at = start + on.turn * interval in
          let more = (s.now - at) / interval + 1 in
          let enough = mul-le-mul_right interval on.ahead in
          rw (step, on.set, late)
            (record {
              turn = on.turn + more;
              set = ap some (omega (arith, add-mul on.turn more interval));
              ahead = omega (arith, on.ahead);
              runs = ground (arith, enough);
            })
      | inr early ↦ rw (step, on.set, early) on
    ]

steps-OnGrid :
    (start interval : ℕ) (es : List Event) (s : State)
    → OnGrid start interval s
    → OnGrid start interval (steps (hrtimer_callback interval) es s)
unfolding steps
steps-OnGrid start interval [] s on = on
steps-OnGrid start interval (e ∷ es) s on =
    steps-OnGrid start interval es (step (hrtimer_callback interval) e s)
      (step-OnGrid start interval e s on)

-- Whenever the kernel looks at the timers, between the loading of src/second/hrtimer.c and its
-- unloading the timer is set to whole intervals behind the loading, however late the callback runs, and
-- there are no more runs than whole intervals have gone by; there is none after the unloading.
pub hrtimer-OnGrid :
    (interval : ℕ) (before after : List Event) (s : State)
    → s.fired ≡ []
    → let running = steps (hrtimer_callback interval) before (hrtimer_init interval s) in
      let end = steps (hrtimer_callback interval) after (hrtimer_exit running) in
      OnGrid s.now interval running × (end.fired ≡ running.fired) × (end.expires ≡ none)
unfolding hrtimer_init hrtimer_exit
hrtimer-OnGrid interval before after s none_yet =
    let rest =
      steps-unset (hrtimer_callback interval) after
        (hrtimer_exit (steps (hrtimer_callback interval) before (hrtimer_init interval s))) refl in
    (
      steps-OnGrid s.now interval before (hrtimer_init interval s) (record {
        turn = 1;
        set = ap some (omega arith);
        ahead = rw none_yet (omega arith);
        runs = rw none_yet (omega arith);
      }),
      rest.0,
      rest.1,
    )
