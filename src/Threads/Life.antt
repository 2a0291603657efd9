-- ===== src/Threads/Life.antt =====
-- The module from its loading to its unloading.
use learn_k.Base.{
  ℕ, suc, ◌+◌, ◌≡◌, refl, ◌∙◌, Bool, true, false, none, some, List, [], ◌∷◌, ◌++◌, arith,
  if◌then◌else◌,
}
use learn_k.Kernel.{Errno, val, err}
use learn_k.Threads.{
  Line, work_running, thread_running, thread_stopped, workqueue_destroyed, no_workqueue, no_thread,
  State, printk, workqueue_function, thread_function, Event, worker, turn, step, steps,
  flush_workqueue, destroy_workqueue, thread_demo_init, thread_demo_exit,
}

abbrev pub is_work : Line → Bool
is_work work_running = true
is_work thread_running = false
is_work thread_stopped = false
is_work workqueue_destroyed = false
is_work no_workqueue = false
is_work no_thread = false

abbrev pub is_turn : Line → Bool
is_turn work_running = false
is_turn thread_running = true
is_turn thread_stopped = false
is_turn workqueue_destroyed = false
is_turn no_workqueue = false
is_turn no_thread = false

abbrev pub count : (Line → Bool) → List Line → ℕ
count f [] = 0
count f (l ∷ ls) = if f l then suc (count f ls) else count f ls

count-append : (f : Line → Bool) (ls ms : List Line) → count f (ls ++ ms) ≡ count f ls + count f ms
count-append f [] ms = omega arith
count-append f (l ∷ ls) ms = ground (arith, count-append f ls ms)

-- how often the thread gets its turn
abbrev pub turns : List Event → ℕ
turns [] = 0
turns (worker ∷ es) = turns es
turns (turn ∷ es) = suc (turns es)

-- whether the job is still to do, as a number
abbrev pub waiting : State → ℕ
waiting s = if s.pending then 1 else 0

-- The job is done once, now or later, and the thread prints a line a turn.
pub record Ran (ts : ℕ) (s s' : State) : Type 0 where
  pub works : count is_work s'.lines + waiting s' ≡ count is_work s.lines + waiting s
  pub printed : count is_turn s'.lines ≡ count is_turn s.lines + ts
  pub same_queue : s'.workqueue ≡ s.workqueue
  pub same_thread : s'.thread ≡ s.thread

turns-cons : (e : Event) (es : List Event) → turns (e ∷ es) ≡ turns (e ∷ []) + turns es
turns-cons worker es = omega arith
turns-cons turn es = omega arith

abbrev turns_of : Bool → List Event → ℕ
turns_of goes_on es = if goes_on then turns es else 0

step-Ran :
    (e : Event) (s : State) → s.workqueue ≡ true → Ran (turns_of s.thread (e ∷ [])) s (step e s)
unfolding step workqueue_function thread_function
step-Ran worker s q = record {
  works = ground (arith, q, count-append is_work s.lines (work_running ∷ []));
  printed = ground (arith, q, count-append is_turn s.lines (work_running ∷ []));
  same_queue = ground (arith, q);
  same_thread = ground (arith, q);
}
step-Ran turn s q = record {
  works = ground (arith, count-append is_work s.lines (thread_running ∷ []));
  printed = ground (arith, count-append is_turn s.lines (thread_running ∷ []));
  same_queue = ground arith;
  same_thread = ground arith;
}

steps-Ran :
    (es : List Event) (s : State) → s.workqueue ≡ true → Ran (turns_of s.thread es) s (steps es s)
unfolding steps
steps-Ran [] s q = record {
  works = refl;
  printed = ground arith;
  same_queue = refl;
  same_thread = refl;
}
steps-Ran (e ∷ es) s q =
    let one = step-Ran e s q in
    let rest = steps-Ran es (step e s) (one.same_queue ∙ q) in
    record {
      works = rest.works ∙ one.works;
      printed = ground (arith, one.printed, rest.printed, one.same_thread, turns-cons e es);
      same_queue = rest.same_queue ∙ one.same_queue;
      same_thread = rest.same_thread ∙ one.same_thread;
    }

-- what the unloading does once the thread has stopped
record Ended (s t : State) : Type 0 where
  works : count is_work t.lines ≡ count is_work s.lines + waiting s
  printed : count is_turn t.lines ≡ count is_turn s.lines
  done : t.pending ≡ false
  no_queue : t.workqueue ≡ false
  same_thread : t.thread ≡ s.thread

destroy-Ended : (s : State) → s.workqueue ≡ true → Ended s (destroy_workqueue s)
unfolding destroy_workqueue flush_workqueue workqueue_function
destroy-Ended s q = record {
  works = ground (arith, q, count-append is_work s.lines (work_running ∷ []));
  printed = ground (arith, q, count-append is_turn s.lines (work_running ∷ []));
  done = ground (arith, q);
  no_queue = refl;
  same_thread = ground (arith, q);
}

finish : State → State
unfolding destroy_workqueue
finish s =
    printk workqueue_destroyed (destroy_workqueue (flush_workqueue (printk thread_stopped s)))

flushed :
    (s : State)
    → s.workqueue ≡ true
    → (count is_work (flush_workqueue s).lines ≡ count is_work s.lines + waiting s)
      × (count is_turn (flush_workqueue s).lines ≡ count is_turn s.lines)
      × ((flush_workqueue s).pending ≡ false)
      × ((flush_workqueue s).workqueue ≡ true)
      × ((flush_workqueue s).thread ≡ s.thread)
unfolding flush_workqueue workqueue_function
flushed s q = (
  ground (arith, q, count-append is_work s.lines (work_running ∷ [])),
  ground (arith, q, count-append is_turn s.lines (work_running ∷ [])),
  ground (arith, q),
  ground (arith, q),
  ground (arith, q),
)

finish-Ended : (s : State) → s.workqueue ≡ true → Ended s (finish s)
unfolding finish
finish-Ended s q =
    let t = printk thread_stopped s in
    let f = flushed t q in
    let d = destroy-Ended (flush_workqueue t) f.3 in
    let end = (destroy_workqueue (flush_workqueue t)).lines in
    let stopped = thread_stopped ∷ [] in
    let destroyed = workqueue_destroyed ∷ [] in
    record {
      works = ground (
        arith,
        f.0,
        f.2,
        d.works,
        count-append is_work s.lines stopped,
        count-append is_work end destroyed,
      );
      printed = ground (
        arith,
        f.1,
        d.printed,
        count-append is_turn s.lines stopped,
        count-append is_turn end destroyed,
      );
      done = d.done;
      no_queue = d.no_queue;
      same_thread = d.same_thread ∙ f.4;
    }

-- Loaded where no thread runs, then any events, then unloaded while other events happen: the job has been done once, and
-- the thread has printed a line for each of its turns before the unloading and none after; there is no
-- thread, no job and no workqueue left.
pub thread_demo-life :
    (before between during : List Event) (s : State)
    → s.thread ≡ false
    → let end = thread_demo_exit during (steps between (thread_demo_init true before none s).1) in
      ((thread_demo_init true before none s).0 ≡ val 0)
      × (count is_work end.lines ≡ suc (count is_work s.lines))
      × (count is_turn end.lines ≡ count is_turn s.lines + turns between)
      × (end.pending ≡ false)
      × (end.thread ≡ false)
      × (end.workqueue ≡ false)
unfolding thread_demo_init thread_demo_exit finish
thread_demo-life before between during s idle =
    let queued = record s { workqueue = true; pending = true } in
    let a = steps-Ran before queued refl in
    let loaded = record (steps before queued) { thread = true } in
    let b = steps-Ran between loaded a.same_queue in
    let c =
      steps-Ran during (record (steps between loaded) { thread = false })
        (b.same_queue ∙ a.same_queue) in
    let d =
      finish-Ended (steps during (record (steps between loaded) { thread = false }))
        (c.same_queue ∙ b.same_queue ∙ a.same_queue) in
    (
      refl,
      omega (arith, a.works, b.works, c.works, d.works),
      ground (arith, idle, a.printed, b.printed, c.printed, d.printed),
      d.done,
      d.same_thread ∙ c.same_thread,
      d.no_queue,
    )

-- Where the thread cannot be created, the loading fails with the error, has still done the job once,
-- and leaves no job and no workqueue.
pub thread_demo_init-undone :
    (before : List Event) (e : Errno) (s : State)
    → let out = thread_demo_init true before (some e) s in
      (out.0 ≡ err e)
      × (count is_work out.1.lines ≡ suc (count is_work s.lines))
      × (out.1.pending ≡ false)
      × (out.1.workqueue ≡ false)
      × (out.1.thread ≡ s.thread)
unfolding thread_demo_init
thread_demo_init-undone before e s =
    let queued : State = record s { workqueue = true; pending = true } in
    let a = steps-Ran before queued refl in
    let d = destroy-Ended (steps before queued) a.same_queue in
    let end = (destroy_workqueue (steps before queued)).lines in
    (
      refl,
      ground (arith, a.works, d.works, count-append is_work end (no_thread ∷ [])),
      d.done,
      d.no_queue,
      d.same_thread ∙ a.same_thread,
    )
