-- ===== src/WorkFifo/Tests.antt =====
-- Items that the module queues, and the theorems at that run.
use learn_k.Base.{◌≡◌, refl, none, some, List, [], ◌∷◌, arith, ◌==◌, if◌then◌else◌}
use learn_k.Base.Int.{pos}
use learn_k.Kernel.{oops, Returns}
use learn_k.Container.Cells.{Cells}
use learn_k.Container.Links.{Ptr}
use learn_k.WorkFifo.{State, flush, workfifo_exit, start}
use learn_k.WorkFifo.Queueing.{IsFifo, workfifo_exit-oops}
use learn_k.WorkFifo.Progress.{Printed, events-Printed}
use learn_k.WorkFifo.Order.{Event, put, process, events, Unused, Went, events_lem}

start-IsFifo : IsFifo start [] 0
start-IsFifo = record {
  heads = refl;
  tails = refl;
  few = omega arith;
  waiting = refl;
  held = tt;
  rest = λ p h. refl;
  apart = tt;
  processed = [];
  slots = tt;
  number = refl;
}

abbrev script : List Event
script = put 1 (pos 1) ∷ put 2 (pos 2) ∷ process ∷ put 1 (pos 3) ∷ process ∷ []

script-Unused : Unused script [] 0
unfolding Unused
script-Unused = (
  refl,
  (λ h. (refl, (λ k. (refl, (λ l. tt), λ l. absurd (omega arith))), λ k. absurd (omega arith))),
  λ h. absurd (omega arith),
)

events_lem_example : Returns (λ _ s'. Went [] 9 script s') (events script start)
events_lem_example = events_lem script start [] 0 start-IsFifo script-Unused

-- one item waiting
abbrev one : State
one = record {
  fifo = λ i. if i == 0 then some 5 else none;
  fifo_head = 0;
  fifo_tail = 1;
  items = λ p. if p == 5 then some (pos 7) else none;
  pending = 5 ∷ [];
  printed = [];
}

abbrev one_cells : Cells
one_cells = (5, pos 7) ∷ []

one-IsFifo : IsFifo one one_cells 1
one-IsFifo = record {
  heads = refl;
  tails = refl;
  few = omega arith;
  waiting = refl;
  held = (refl, tt);
  rest = λ p h. ground arith;
  apart = (refl, tt);
  processed = [];
  slots = (refl, tt);
  number = refl;
}

workfifo_exit-oops_example :
    (p : Ptr) × (one.fifo 0 ≡ some p)
    × Returns (λ _ t. (t.items p ≡ none) × (t.fifo_head ≡ 0)) (flush (5 ∷ []) one)
    × (workfifo_exit one ≡ oops)
workfifo_exit-oops_example = workfifo_exit-oops one one_cells 1 one-IsFifo (omega arith)

busy_script : Unused (put 1 (pos 3) ∷ process ∷ []) one_cells 1
unfolding Unused
busy_script = (refl, (λ h. tt), λ h. absurd (omega arith))

events-Printed_example :
    Returns (λ _ s'. Printed (pos 7 ∷ []) s') (events (put 1 (pos 3) ∷ process ∷ []) one)
events-Printed_example =
    events-Printed (put 1 (pos 3) ∷ process ∷ []) one one_cells [] 1 one-IsFifo busy_script
      (omega arith)
