-- ===== src/Cdev/Tests.antt =====
-- The device at concrete states: a process writes "hi" at position 4094, where two bytes are left.
use learn_k.Base.{◌≡◌, refl, true, false, List, [], ◌∷◌, arith, ◌⊎◌, some}
use learn_k.Base.Int.{pos, negsuc, ◌+ℤ◌}
use learn_k.Memory.{Bytes, slice, store_all}
use learn_k.Kernel.{efault, val, err, done, ◌>>◌, Returns}
use learn_k.Kernel.Flat.{flat}
use learn_k.Cdev.Seek.{hello_llseek}
use learn_k.Cdev.Position.{move_to, hello_llseek_exact}
use learn_k.Cdev.Transfer.{IsReady, ReadDone, WriteDone, hello_read_lem, hello_write_lem}
use learn_k.Cdev.RoundTrip.{hello_read-hello_write}
use learn_k.Cdev.Session.{
  Call, ioctl, read, write, seek, session, IsSafe, AllBounded, session-IsSafe,
}
use learn_k.Cdev.{State, hello_read, hello_write, llseek}
use learn_k.Cdev.Setup.{Answers}

-- "hi!" at address 100
abbrev process : Bytes
process = store_all (λ _. 0) 100 (104 ∷ 105 ∷ 33 ∷ [])

abbrev near_end : State Bytes
near_end = record {
  mem = λ _. 7;
  held = false;
  private_data = true;
  f_pos = pos 4094;
  user = process;
}

near_end-IsReady : IsReady flat near_end 4094
near_end-IsReady = record { free = refl; opened = refl; at = refl }

-- Three bytes are given and two fit.
write_two :
    Returns
      (λ r s. (r ≡ val 2) × (slice s.mem 4093 4 ≡ 7 ∷ 104 ∷ 105 ∷ 7 ∷ []))
      (hello_write flat 100 3 near_end)
unfolding hello_write slice store_all
write_two = (refl, refl)

hello_llseek_exact_example :
    hello_llseek (pos 10) (negsuc 2) 1 ≡ move_to (pos 10) (some (pos 10 +ℤ negsuc 2))
hello_llseek_exact_example =
    hello_llseek_exact 10 (negsuc 2) 1 (omega arith) (omega arith) (omega arith) (λ e. omega arith)

hello_read_lem_example :
    Returns (ReadDone flat near_end 4094 200 2) (hello_read flat 200 9 near_end)
hello_read_lem_example = hello_read_lem flat near_end 4094 200 9 near_end-IsReady (omega arith)

hello_write_lem_example :
    Returns (WriteDone flat near_end 4094 100 2) (hello_write flat 100 3 near_end)
hello_write_lem_example = hello_write_lem flat near_end 4094 100 3 near_end-IsReady (omega arith)

-- the state that the write of "hi" leaves
abbrev written : State Bytes
written = record near_end { mem = store_all (λ _. 7) 4094 (104 ∷ 105 ∷ []); f_pos = pos 4096 }

writes : hello_write flat 100 3 near_end ≡ done (val 2) written
unfolding hello_write slice store_all
writes = refl

hello_read-hello_write_example :
    Returns
      (λ r s. ((r ≡ val 2) × (slice s.user 300 2 ≡ slice process 100 2)) ⊎ (r ≡ err efault))
      ((llseek flat (pos 4094) 0 >> hello_read flat 300 3) written)
hello_read-hello_write_example =
    hello_read-hello_write flat near_end written 4094 100 300 3 near_end-IsReady (omega arith)
      writes

near_end-IsSafe : IsSafe flat (λ _. 7) near_end
near_end-IsSafe = record {
  free = refl;
  opened = refl;
  position = omega arith;
  behind = λ i h. refl;
}

abbrev script : List Call
script = write 100 3 ∷ seek (negsuc 1) 1 ∷ read 300 2 ∷ ioctl 1 ∷ ioctl 9 ∷ seek (pos 9999) 0 ∷ []

session-IsSafe_example :
    Returns (λ rs s. IsSafe flat (λ _. 7) s × AllBounded flat rs) (session flat script near_end)
session-IsSafe_example = session-IsSafe flat script (λ _. 7) near_end near_end-IsSafe

-- a kernel that has no memory
abbrev no_memory : Answers
no_memory = record { register = pos 0; picked = 240; kzalloc = false; cdev_add = pos 0 }
