-- ===== src/Tasklet/Unload.antt =====
-- Interrupts, runs of the tasklet, and the unloading.
use learn_k.Base.{
  ℕ, suc, ◌+◌, ◌≤◌, ◌<◌, ◌%◌, ◌^◌, ◌≡◌, ◌∙◌, subst, true, refl, Bool, false, not, ◌||◌, ◌&&◌, List,
  [], ◌∷◌, arith, ◌==◌, if◌then◌else◌,
}
use learn_k.Tasklet.{
  State, irq_num, irq_handler, deliver, my_tasklet_handler, Event, irq, softirq, step, steps,
  tasklet_demo_exit,
}

-- the interrupts that are the module's
abbrev pub own_events : List Event → ℕ
own_events [] = 0
own_events (irq n ∷ es) = if n == irq_num then suc (own_events es) else own_events es
own_events (softirq ∷ es) = own_events es

abbrev pub waiting : State → ℕ
waiting s = if s.scheduled then 1 else 0

-- What the events do: how many interrupts there were, and how often the tasklet has to run.
pub record Counts (n : ℕ) (s s' : State) : Type 0 where
  pub counted : s'.irq_counter ≡ (s.irq_counter + n) % 2 ^ 32
  pub no_more : s'.runs + waiting s' ≤ s.runs + waiting s + n
  pub monotone : s.runs ≤ s'.runs
  pub not_lost : 0 < n + waiting s → s.runs < s'.runs + waiting s'

step-Counts :
    (e : Event) (s : State)
    → s.registered ≡ true
    → s.irq_counter < 2 ^ 32
    → Counts (own_events (e ∷ [])) s (step e s)
      × ((step e s).registered ≡ true)
      × ((step e s).irq_counter < 2 ^ 32)
unfolding step deliver irq_handler my_tasklet_handler
step-Counts (irq n) s r b = (
  record {
    counted = ground (arith, r);
    no_more = ground (arith, r);
    monotone = ground (arith, r);
    not_lost = λ h. ground (arith, r);
  },
  ground (arith, r),
  ground (arith, r),
)
step-Counts softirq s r b = (
  record {
    counted = ground arith;
    no_more = ground arith;
    monotone = ground arith;
    not_lost = λ h. ground arith;
  },
  ground arith,
  ground arith,
)

Counts-trans : (n m : ℕ) (s t u : State) → Counts n s t → Counts m t u → Counts (n + m) s u
Counts-trans n m s t u a b = record {
  counted = omega (arith, a.counted, b.counted);
  no_more = omega (arith, a.no_more, b.no_more);
  monotone = omega (arith, a.monotone, b.monotone);
  not_lost = λ h. ground (arith, a.monotone, b.monotone, a.not_lost, b.not_lost);
}

own_events-cons :
    (e : Event) (es : List Event) → own_events (e ∷ []) + own_events es ≡ own_events (e ∷ es)
own_events-cons (irq n) es = ground arith
own_events-cons softirq es = omega arith

-- While the handler is registered, every interrupt of its number is counted, modulo 2^32, and no
-- other. The tasklet has not run, or been left scheduled, more often than such interrupts came; but
-- after one it has run or is scheduled.
pub steps-Counts :
    (es : List Event) (s : State)
    → s.registered ≡ true
    → s.irq_counter < 2 ^ 32
    → Counts (own_events es) s (steps es s)
unfolding steps
steps-Counts [] s r b = record {
  counted = ground arith;
  no_more = omega arith;
  monotone = omega arith;
  not_lost = λ h. ground arith;
}
steps-Counts (e ∷ es) s r b =
    let (one, r', b') = step-Counts e s r b in
    subst (λ n. Counts n s (steps es (step e s))) (own_events-cons e es)
      (Counts-trans _ _ s (step e s) (steps es (step e s)) one (steps-Counts es (step e s) r' b'))

abbrev pub has_softirq : List Event → Bool
has_softirq [] = false
has_softirq (irq n ∷ es) = has_softirq es
has_softirq (softirq ∷ es) = true

-- the events after the last softirq
abbrev pub since_softirq : List Event → List Event
since_softirq [] = []
since_softirq (irq n ∷ es) = if has_softirq es then since_softirq es else irq n ∷ es
since_softirq (softirq ∷ es) = since_softirq es

since_softirq-none : (es : List Event) → has_softirq es ≡ false → since_softirq es ≡ es
since_softirq-none [] h = refl
since_softirq-none (irq n ∷ es) h = rw h refl
since_softirq-none (softirq ∷ es) h = absurd (ground (arith, h))

steps-scheduled :
    (es : List Event) (s : State)
    → s.registered ≡ true
    → (steps es s).scheduled
      ≡ ((s.scheduled && not (has_softirq es)) || not (own_events (since_softirq es) == 0))
unfolding steps step deliver irq_handler my_tasklet_handler
steps-scheduled [] s r = ground arith
steps-scheduled (irq n ∷ es) s r =
    steps-scheduled es (step (irq n) s) (ground (arith, r))
    ∙ ground (arith, r, since_softirq-none es)
steps-scheduled (softirq ∷ es) s r =
    steps-scheduled es (step softirq s) (ground (arith, r)) ∙ ground (arith, r)

-- The tasklet is killed before the interrupt is freed: it is still scheduled when the module is gone
-- exactly if an interrupt of the module's number arrived in between with no softirq after it.
pub tasklet_demo_exit-scheduled :
    (es : List Event) (s : State)
    → s.registered ≡ true
    → (tasklet_demo_exit es s).scheduled ≡ not (own_events (since_softirq es) == 0)
unfolding tasklet_demo_exit my_tasklet_handler
tasklet_demo_exit-scheduled es s r =
    steps-scheduled es (my_tasklet_handler s) (ground (arith, r)) ∙ ground arith
