-- ===== src/Tasklet.antt =====
-- src/tasklet/main.c: an interrupt handler that leaves its work to a tasklet.
pub mod Unload
mod Tests
use learn_k.Base.{
  ℕ, zero, suc, ◌+◌, ◌%◌, ◌^◌, Bool, true, false, not, List, [], ◌∷◌, ◌==◌, if◌then◌else◌,
}
use learn_k.Kernel.{eio, Ret, val, err}

-- Whether the handler is registered, whether the tasklet is scheduled, how often it has run, and
-- `irq_counter`, as the bits of an `int`.
pub record State : Type 0 where
  pub registered : Bool
  pub scheduled : Bool
  pub runs : ℕ
  pub irq_counter : ℕ

pub data Irqreturn : Type 0 where
  irq_none irq_handled : Irqreturn

abbrev pub irq_num : ℕ
irq_num = 1

-- `tasklet_schedule` does nothing if the tasklet is scheduled already.
unfoldable pub irq_handler : ℕ → State → Irqreturn × State
irq_handler irq s =
    if not (irq == irq_num)
    then (irq_none, s)
    else (irq_handled, record s { irq_counter = (s.irq_counter + 1) % 2 ^ 32; scheduled = true })

-- An interrupt, which reaches the handler if that is registered.
unfoldable pub deliver : ℕ → State → State
unfolding irq_handler
deliver irq s = if s.registered then (irq_handler irq s).1 else s

-- The softirq: the tasklet runs if it is scheduled.
unfoldable pub my_tasklet_handler : State → State
my_tasklet_handler s = if s.scheduled then record s { scheduled = false; runs = s.runs + 1 } else s

-- The flag says whether `request_irq` fails.
unfoldable pub tasklet_demo_init : Bool → State → Ret × State
tasklet_demo_init fails s = if fails then (err eio, s) else (val 0, record s { registered = true })

-- what happens to the module from outside
pub data Event : Type 0 where
  irq : ℕ → Event
  softirq : Event

unfoldable pub step : Event → State → State
unfolding deliver my_tasklet_handler
step (irq n) s = deliver n s
step softirq s = my_tasklet_handler s

unfoldable pub steps : List Event → State → State
unfolding step
steps [] s = s
steps (e ∷ es) s = steps es (step e s)

-- `tasklet_kill` waits until the tasklet has run if it is scheduled. The events are those before
-- `free_irq`, interrupts and softirqs.
unfoldable pub tasklet_demo_exit : List Event → State → State
unfolding my_tasklet_handler steps
tasklet_demo_exit es s = record (steps es (my_tasklet_handler s)) { registered = false }
