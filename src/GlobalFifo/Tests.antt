-- ===== src/GlobalFifo/Tests.antt =====
-- A reader that waits for a writer, and the theorems at that run.
use learn_k.Cdev.Setup.{Answers}
use learn_k.Base.Int.{pos}
use learn_k.Base.{◌≡◌, refl, false, some, List, [], ◌∷◌, arith, ◌==◌, if◌then◌else◌}
use learn_k.Memory.{Bytes, slice, store, store_all, memcpy_within}
use learn_k.Kernel.{val}
use learn_k.Kernel.Flat.{flat}
use learn_k.Memory.Laws.{memcpy_within_lem}
use learn_k.GlobalFifo.Machine.{
  Platform, read, write, poll, idle, r_test, p_again, returned, System, Event, call, run, run_all,
  start,
}
use learn_k.GlobalFifo.Contents.{contents}
use learn_k.GlobalFifo.Flow.{CallsNoClear, clears, Flows, Quiet, run_all-Flows}
use learn_k.GlobalFifo.Mutex.{holds, IsOwned, IsStuck, run_all-IsOwned, run_all-IsStuck}
use learn_k.GlobalFifo.Wakeup.{reader_sleeps, writer_sleeps, is_lost, IsAwake, run_all-IsAwake}

-- memory as one function, and `memcpy` from the lowest byte up
abbrev machine : Platform
machine = record { users = flat; memcpy = memcpy_within; memcpy_lem = memcpy_within_lem }

-- "hi" at address 100
abbrev process : Bytes
process = store_all (λ _. 0) 100 (104 ∷ 105 ∷ [])

-- Thread 1 reads and goes to sleep, thread 2 writes, thread 1 goes on.
abbrev script : List (Event Bytes)
script =
    call 1 (read 200 1 false)
    ∷ run 1
    ∷ run 1
    ∷ call 2 (write 100 2 false)
    ∷ run 2
    ∷ run 2
    ∷ run 1
    ∷ run 1
    ∷ run 1
    ∷ []

after_script :
    let s = run_all machine script (start machine process) in
    (s.threads 1 ≡ returned (val 1))
    × (s.threads 2 ≡ returned (val 2))
    × (contents s ≡ 105 ∷ [])
    × (s.got ≡ 104 ∷ [])
    × (s.user 200 ≡ 104)
unfolding run_all slice store_all memcpy_within store
after_script = (refl, refl, refl, refl, refl)

-- two bytes queued
abbrev queued : System Bytes
queued = record {
  current_len = 2;
  mem = store_all (λ _. 0) 0 (7 ∷ 8 ∷ []);
  mutex = some 1;
  threads = λ _. r_test 200 1 false;
  user = process;
  sent = 7 ∷ 8 ∷ [];
  got = [];
}

start-Flows : Flows (λ _. 0) (start machine process)
unfolding slice
start-Flows = record { fits = omega arith; order = refl; behind = λ i h. refl }

start-Quiet : Quiet machine (λ _. 0) (start machine process)
unfolding clears
start-Quiet u = refl

script-CallsNoClear : CallsNoClear script
script-CallsNoClear = (λ cmd e. absurd (cc), (λ cmd e. absurd (cc), tt))

run_all-Flows_example : Flows (λ _. 0) (run_all machine script (start machine process))
run_all-Flows_example =
    run_all-Flows machine (λ _. 0) script (start machine process) script-CallsNoClear start-Quiet
      start-Flows

start-IsOwned : IsOwned (start machine process)
unfolding holds
start-IsOwned = record { owner = λ u h. absurd (cc); inside = λ u h. absurd (cc) }

run_all-IsOwned_example : IsOwned (run_all machine script (start machine process))
run_all-IsOwned_example = run_all-IsOwned machine script (start machine process) start-IsOwned

-- thread 3 inside `hello_poll`, behind the computation of the mask
abbrev polling : System Bytes
polling = record {
  current_len = 0;
  mem = λ _. 0;
  mutex = some 3;
  threads = λ u. if u == 3 then p_again 0x104 else idle;
  user = process;
  sent = [];
  got = [];
}

polls :
    let s = run_all machine (call 3 poll ∷ run 3 ∷ []) (start machine process) in
    (s.threads 3 ≡ p_again 0x104) × (s.mutex ≡ some 3)
unfolding run_all
polls = (refl, refl)

polling-IsStuck : IsStuck machine 3 0x104 0 polling
unfolding holds
polling-IsStuck = record {
  waits = refl;
  owned = record { owner = λ u h. ground arith; inside = λ u h. ground arith };
  frozen = refl;
}

run_all-IsStuck_example :
    IsStuck machine 3 0x104 0 (run_all machine script polling)
    × ((run_all machine script polling).mutex ≡ some 3)
run_all-IsStuck_example = run_all-IsStuck machine 3 0x104 0 script polling polling-IsStuck

start-IsAwake : IsAwake (start machine process)
unfolding reader_sleeps writer_sleeps is_lost
start-IsAwake = record { readers = λ u h. refl; writers = λ u h. absurd (cc); kept = λ u. refl }

run_all-IsAwake_example : IsAwake (run_all machine script (start machine process))
run_all-IsAwake_example = run_all-IsAwake machine script (start machine process) tt start-IsAwake

-- `kzalloc` fails
abbrev no_memory : Answers
no_memory = record { register = pos 0; picked = 240; kzalloc = false; cdev_add = pos 0 }
