-- ===== src/Tasklet/Tests.antt =====
-- Two interrupts of the module's and one of another device.
use learn_k.Base.{◌≡◌, refl, true, false, List, [], ◌∷◌, arith}
use learn_k.Tasklet.{State, Event, irq, softirq, steps, tasklet_demo_exit}
use learn_k.Tasklet.Unload.{Counts, steps-Counts, tasklet_demo_exit-scheduled}

abbrev loaded : State
loaded = record { registered = true; scheduled = false; runs = 0; irq_counter = 0 }

abbrev script : List Event
script = irq 1 ∷ irq 7 ∷ softirq ∷ irq 1 ∷ []

steps-Counts_example : Counts 2 loaded (steps script loaded)
steps-Counts_example = steps-Counts script loaded refl (omega arith)

tasklet_demo_exit-scheduled_example : (tasklet_demo_exit script loaded).scheduled ≡ true
tasklet_demo_exit-scheduled_example = tasklet_demo_exit-scheduled script loaded refl
