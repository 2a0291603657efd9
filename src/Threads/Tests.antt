-- ===== src/Threads/Tests.antt =====
-- A run of src/thread/main.c.
use learn_k.Base.{◌≡◌, refl, true, false, none, some, [], ◌∷◌}
use learn_k.Kernel.{eagain, err, val}
use learn_k.Threads.{State, worker, turn, no_workqueue, steps, thread_demo_init, thread_demo_exit}
use learn_k.Threads.Life.{count, is_work, is_turn, thread_demo-life, thread_demo_init-undone}

abbrev unloaded : State
unloaded = record { workqueue = false; pending = false; thread = false; lines = no_workqueue ∷ [] }

-- The worker is late.
abbrev ended : State
ended =
    thread_demo_exit (turn ∷ worker ∷ [])
      (steps (turn ∷ turn ∷ []) (thread_demo_init true (turn ∷ []) none unloaded).1)

thread_demo-life_example :
    ((thread_demo_init true (turn ∷ []) none unloaded).0 ≡ val 0)
    × (count is_work ended.lines ≡ 1)
    × (count is_turn ended.lines ≡ 2)
    × (ended.pending ≡ false)
    × (ended.thread ≡ false)
    × (ended.workqueue ≡ false)
thread_demo-life_example =
    thread_demo-life (turn ∷ []) (turn ∷ turn ∷ []) (turn ∷ worker ∷ []) unloaded refl

init_undone :
    ((thread_demo_init true [] (some eagain) unloaded).0 ≡ err eagain)
    × (count is_work (thread_demo_init true [] (some eagain) unloaded).1.lines ≡ 1)
    × ((thread_demo_init true [] (some eagain) unloaded).1.pending ≡ false)
    × ((thread_demo_init true [] (some eagain) unloaded).1.workqueue ≡ false)
    × ((thread_demo_init true [] (some eagain) unloaded).1.thread ≡ false)
init_undone = thread_demo_init-undone [] eagain unloaded
