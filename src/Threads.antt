-- ===== src/Threads.antt =====
-- src/thread/main.c: a kernel thread that prints until it is stopped, and one job for a workqueue.
pub mod Life
mod Tests
use learn_k.Base.{Bool, true, false, ◌&&◌, Option, none, some, List, [], ◌∷◌, ◌++◌, if◌then◌else◌}
use learn_k.Kernel.{Errno, enomem, Ret, val, err}

-- the lines of the log
pub data Line : Type 0 where
  work_running thread_running thread_stopped workqueue_destroyed : Line
  no_workqueue no_thread : Line

-- Whether there is a workqueue, whether `demo_work` waits in it, whether the thread goes on, and the
-- log.
pub record State : Type 0 where
  pub workqueue : Bool
  pub pending : Bool
  pub thread : Bool
  pub lines : List Line

abbrev pub printk : Line → State → State
printk l s = record s { lines = s.lines ++ (l ∷ []) }

-- The worker takes the job.
unfoldable pub workqueue_function : State → State
workqueue_function s =
    if s.workqueue && s.pending then printk work_running (record s { pending = false }) else s

-- One turn of the loop of the thread, which sees whether it should stop.
unfoldable pub thread_function : State → State
thread_function s = if s.thread then printk thread_running s else s

-- what the scheduler lets run
pub data Event : Type 0 where
  worker turn : Event

unfoldable pub step : Event → State → State
unfolding workqueue_function thread_function
step worker s = workqueue_function s
step turn s = thread_function s

unfoldable pub steps : List Event → State → State
unfolding step
steps [] s = s
steps (e ∷ es) s = steps es (step e s)

-- `flush_workqueue` and `destroy_workqueue` wait for the job that is queued.
unfoldable pub flush_workqueue : State → State
unfolding workqueue_function
flush_workqueue s = workqueue_function s

unfoldable pub destroy_workqueue : State → State
unfolding flush_workqueue
destroy_workqueue s = record (flush_workqueue s) { workqueue = false }

-- The flag says whether `create_workqueue` works, the error is that of `kthread_run`; between
-- the two the events `meanwhile` happen.
unfoldable pub thread_demo_init : Bool → List Event → Option Errno → State → Ret × State
unfolding steps destroy_workqueue
thread_demo_init false meanwhile failure s = (err enomem, printk no_workqueue s)
thread_demo_init true meanwhile failure s =
    let queued = steps meanwhile (record s { workqueue = true; pending = true }) in
    elim failure [
      | none ↦ (val 0, record queued { thread = true })
      | some e ↦ (err e, printk no_thread (destroy_workqueue queued))
    ]

-- After a successful init both pointers are set. `kthread_stop` waits until the thread has seen that
-- it should stop, and the events `meanwhile` happen.
unfoldable pub thread_demo_exit : List Event → State → State
unfolding steps flush_workqueue destroy_workqueue
thread_demo_exit meanwhile s =
    let stopped = printk thread_stopped (steps meanwhile (record s { thread = false })) in
    printk workqueue_destroyed (destroy_workqueue (flush_workqueue stopped))
