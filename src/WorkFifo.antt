-- ===== src/WorkFifo.antt =====
-- src/thread/fifo.c: work items in a ring of ten slots, each handed to a workqueue with one worker.
pub mod Queueing
pub mod Order
pub mod Progress
mod Tests
use learn_k.Base.{
  ℕ, zero, suc, ◌+◌, ◌%◌, Bool, Option, none, some, List, [], ◌∷◌, ◌++◌, ◌==◌, if◌then◌else◌,
}
use learn_k.Base.Int.{ℤ, pos, negsuc}
use learn_k.Kernel.{Errno, enomem, Ret, val, err, Run, done, blocked, oops, ◌>>=◌, ◌>>◌}
use learn_k.Container.Links.{Ptr}
use learn_k.Container.Core.{put_value}

-- `FIFO_SIZE`
abbrev pub fifo_size : ℕ
fifo_size = 10

-- A slot of `fifo` is `NULL` (`none`) or has an address. `items` has the `data` of each allocated `struct fifo_item`; `pending` are the items that the
-- workqueue has yet to process, and `printed` is what `work_handler` has printed.
pub record State : Type 0 where
  pub fifo : ℕ → Option Ptr
  pub fifo_head : ℕ
  pub fifo_tail : ℕ
  pub items : Ptr → Option ℤ
  pub pending : List Ptr
  pub printed : List ℤ

-- `kfree` of what a slot holds, which does nothing for `NULL`
unfoldable pub free_item : Option Ptr → State → Run State (Unit {0})
free_item none s = done tt s
free_item (some p) s = elim (s.items p) [
  | none ↦ oops
  | some _ ↦ done tt (record s { items = put_value s.items p none })
]

unfoldable pub work_handler : Ptr → State → Run State (Unit {0})
work_handler p s = elim (s.items p) [
  | none ↦ oops
  | some v ↦
      done tt (record s { printed = s.printed ++ (v ∷ []); items = put_value s.items p none })
]

-- Its work runs under `fifo_lock` alone, so it is one step; the first argument is what `kmalloc`
-- returns. A full ring is refused before `kmalloc` is called.
unfoldable pub enqueue : Option Ptr → ℤ → State → Run State ℤ
enqueue none value s = done (negsuc 0) s
enqueue (some item) value s =
    if (s.fifo_tail + 1) % fifo_size == s.fifo_head
    then done (negsuc 0) s
    else done (pos 0) (record s {
      items = put_value s.items item (some value);
      fifo = λ i. if i == s.fifo_tail then some item else s.fifo i;
      fifo_tail = (s.fifo_tail + 1) % fifo_size;
      pending = s.pending ++ (item ∷ []);
    })

-- the worker takes the next item
unfoldable pub work : List Ptr → State → Run State (Unit {0})
unfolding work_handler
work [] s = done tt s
work (p ∷ ps) s = work_handler p (record s { pending = ps })

-- `flush_workqueue`
unfoldable pub flush : List Ptr → State → Run State (Unit {0})
flush [] s = done tt s
flush (p ∷ ps) s = (work (p ∷ ps) >> flush ps) s

-- the `while` of `workfifo_exit`
unfoldable pub free_all : ℕ → State → Run State (Unit {0})
unfolding free_item
free_all zero s = blocked
free_all (suc fuel) s =
    let rest = free_item (s.fifo s.fifo_head) >> free_all fuel in
    if s.fifo_head == s.fifo_tail
    then done tt s
    else rest (record s { fifo_head = (s.fifo_head + 1) % fifo_size })

unfoldable pub workfifo_exit : State → Run State (Unit {0})
workfifo_exit s = (flush s.pending >> free_all (suc fifo_size)) s

-- The flag says whether there is a workqueue, and the addresses are what `kmalloc` returns for
-- each item; a failed `enqueue` goes unnoticed.
unfoldable pub workfifo_init : Bool → (a b c : Option Ptr) → State → Run State Ret
workfifo_init queue a b c s =
    if queue
    then (enqueue a (pos 1) >> enqueue b (pos 2) >> enqueue c (pos 3) >> λ t. done (val 0) t) s
    else done (err enomem) s

abbrev pub start : State
start = record {
  fifo = λ _. none;
  fifo_head = 0;
  fifo_tail = 0;
  items = λ _. none;
  pending = [];
  printed = [];
}
