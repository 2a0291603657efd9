-- ===== src/GlobalFifo/Machine.antt =====
-- The handlers of src/globalfifo/main.c as steps of a thread.
use learn_k.Base.{
  ◌≤◌, ◌≡◌, ℕ, ◌+◌, ◌-◌, Bool, true, false, Option, none, some, List, [], ◌∷◌, ◌++◌, ltb, ◌==◌,
  if◌then◌else◌,
}
use learn_k.Memory.{Bytes, slice, store_all, memset, within}
use learn_k.Kernel.{einval, efault, eagain, erestartsys, Ret, val, err, UserMem}

-- `HELLODEV_SIZE`
abbrev pub hellodev_size : ℕ
hellodev_size = 0x1000

abbrev pub mem_clear : ℕ
mem_clear = 1

-- The system calls of `hello_fops` that reach the device. `nonblock` is `f_flags & O_NONBLOCK`.
pub data Request : Type 0 where
  read write : (buf count : ℕ) (nonblock : Bool) → Request
  ioctl : ℕ → Request
  poll : Request

-- Where a thread is. `r_lock`: before `mutex_lock` of `hello_read`, the first or the one after a
-- wait; `r_test`: at the loop's test, with the mutex; `r_asleep`: in `schedule`, `woken` once
-- `wake_up_interruptible` has made it runnable; `r_lost`: there, but no longer in `r_wait`. `w_…` likewise for `hello_write`, `i_…` for
-- `hello_ioctl`. `p_lock` and `p_again` stand before the two `mutex_lock` of `hello_poll`.
pub data Pc : Type 0 where
  idle : Pc
  r_lock r_test : (buf count : ℕ) (nonblock : Bool) → Pc
  r_asleep : (buf count : ℕ) (nonblock woken : Bool) → Pc
  r_lost : (buf count : ℕ) (nonblock : Bool) → Pc
  w_lock w_test : (buf count : ℕ) (nonblock : Bool) → Pc
  w_asleep : (buf count : ℕ) (nonblock woken : Bool) → Pc
  i_lock i_test p_lock : Pc
  p_again : ℕ → Pc
  returned : Ret → Pc

-- `struct hello_dev` with its mutex's holder, the threads, and the memory of the processes. `sent`
-- and `got` record what writers have put in and readers have taken out, for the specification.
pub record System (User : Type 0) : Type 0 where
  pub current_len : ℕ
  pub mem : Bytes
  pub mutex : Option ℕ
  pub threads : ℕ → Pc
  pub user : User
  pub sent : List ℕ
  pub got : List ℕ

-- `call`: a thread outside the kernel makes a system call. `run`: a thread goes on. `signal`: a
-- waiting thread is interrupted. `touch`: a process changes its memory. `lose`: `hello_read` takes its
-- own entry out of `r_wait` under the lock of `w_wait`, and outside the mutex, while another thread is
-- put into `r_wait`, so that this list loses the entry of a sleeping thread.
pub data Event (User : Type 0) : Type 0 where
  call : ℕ → Request → Event User
  run signal : ℕ → Event User
  touch : User → Event User
  lose : ℕ → Event User

abbrev pub update : (ℕ → Pc) → ℕ → Pc → ℕ → Pc
update threads t pc u = if u == t then pc else threads u

-- `wake_up_interruptible(&dev->r_wait)` and `(&dev->w_wait)`, at one thread
unfoldable pub wake_reader : Pc → Pc
wake_reader (r_asleep buf count nonblock woken) = r_asleep buf count nonblock true
wake_reader pc = pc

unfoldable pub wake_writer : Pc → Pc
wake_writer (w_asleep buf count nonblock woken) = w_asleep buf count nonblock true
wake_writer pc = pc

unfoldable pub begin : Request → Pc
begin (read buf count nonblock) = r_lock buf count nonblock
begin (write buf count nonblock) = w_lock buf count nonblock
begin (ioctl cmd) = if cmd == mem_clear then i_lock else returned (err einval)
begin poll = p_lock

-- The kernel that the module runs on: the memory of the processes, and its `memcpy` within one object.
-- Where the two regions overlap C leaves the result open; the code relies on a copy to lower
-- addresses that is whole, as one from the lowest byte up is.
pub record Platform : Type 1 where
  pub users : UserMem
  pub memcpy : Bytes → (dst src n : ℕ) → Bytes
  pub memcpy_lem :
      (m : Bytes) (dst src n i : ℕ)
      → dst ≤ src
      → memcpy m dst src n i ≡ (if within dst n i then m (src + (i - dst)) else m i)

module _ (U : Platform) where
  -- `mutex_unlock` at the end of a handler, and its return
  abbrev leave : ℕ → Ret → System U.users.User → System U.users.User
  leave t r s = record s { mutex = none; threads = update s.threads t (returned r) }

  -- `mutex_lock`: waits while another thread, or the thread itself, holds it
  abbrev lock : ℕ → Pc → System U.users.User → System U.users.User
  lock t pc s = elim s.mutex [
    | none ↦ record s { mutex = some t; threads = update s.threads t pc }
    | some _ ↦ s
  ]

  -- lines 90 to 104 of `hello_read`: the bytes taken, and what is left moved to the front
  unfoldable pub take_out : ℕ → (buf count : ℕ) → System U.users.User → System U.users.User
  take_out t buf count s =
      let n = if ltb s.current_len count then s.current_len else count in
      let (left, user) = U.users.copy_to_user s.user buf (slice s.mem 0 n) in
      if left == 0
      then record s {
        user = user;
        mem = U.memcpy s.mem 0 n (s.current_len - n);
        current_len = s.current_len - n;
        mutex = none;
        threads = update (λ u. wake_writer (s.threads u)) t (returned (val n));
        got = s.got ++ slice s.mem 0 n;
      }
      else leave t (err efault) (record s { user = user })

  -- the `while` of `hello_read`, and what follows it
  unfoldable pub read_body : ℕ → (buf count : ℕ) → Bool → System U.users.User → System U.users.User
  unfolding take_out wake_writer
  read_body t buf count nonblock s =
      if s.current_len == 0
      then (if nonblock then leave t (err eagain) s else record s {
        mutex = none;
        threads = update s.threads t (r_asleep buf count nonblock false);
      })
      else take_out t buf count s

  -- lines 142 to 156 of `hello_write`
  unfoldable pub put_in : ℕ → (buf count : ℕ) → System U.users.User → System U.users.User
  put_in t buf count s =
      let room = hellodev_size - s.current_len in
      let n = if ltb room count then room else count in
      let (left, bs) = U.users.copy_from_user s.user buf n in
      let mem = store_all s.mem s.current_len bs in
      if left == 0
      then record s {
        mem = mem;
        current_len = s.current_len + n;
        mutex = none;
        threads = update (λ u. wake_reader (s.threads u)) t (returned (val n));
        sent = s.sent ++ bs;
      }
      else leave t (err efault) (record s { mem = mem })

  -- the `while` of `hello_write`, and what follows it
  unfoldable pub write_body : ℕ → (buf count : ℕ) → Bool → System U.users.User → System U.users.User
  unfolding put_in wake_reader
  write_body t buf count nonblock s =
      if s.current_len == hellodev_size
      then (if nonblock then leave t (err eagain) s else record s {
        mutex = none;
        threads = update s.threads t (w_asleep buf count nonblock false);
      })
      else put_in t buf count s

  -- `POLLIN | POLLRDNORM` and `POLLOUT | POLLWRNORM`
  abbrev pub poll_mask : ℕ → ℕ
  poll_mask current_len =
      (if current_len == 0 then 0 else 0x41) + (if current_len == hellodev_size then 0 else 0x104)

  -- A thread goes on from where it is.
  unfoldable pub go_on : ℕ → Pc → System U.users.User → System U.users.User
  unfolding read_body write_body
  go_on t (r_lock buf count nonblock) s = lock t (r_test buf count nonblock) s
  go_on t (r_test buf count nonblock) s = read_body t buf count nonblock s
  go_on t (r_asleep buf count nonblock woken) s =
      if woken then record s { threads = update s.threads t (r_lock buf count nonblock) } else s
  go_on t (r_lost buf count nonblock) s = s
  go_on t (w_lock buf count nonblock) s = lock t (w_test buf count nonblock) s
  go_on t (w_test buf count nonblock) s = write_body t buf count nonblock s
  go_on t (w_asleep buf count nonblock woken) s =
      if woken then record s { threads = update s.threads t (w_lock buf count nonblock) } else s
  go_on t i_lock s = lock t i_test s
  go_on t i_test s = leave t (val 0) (record s { mem = memset s.mem 0 0 hellodev_size })
  go_on t p_lock s = lock t (p_again (poll_mask s.current_len)) s
  go_on t (p_again mask) s = lock t (returned (val mask)) s
  go_on t idle s = s
  go_on t (returned r) s = s

  -- A signal ends the wait of a thread in `schedule`.
  unfoldable pub interrupt : ℕ → Pc → System U.users.User → System U.users.User
  interrupt t (r_asleep buf count nonblock woken) s = record s {
    threads = update s.threads t (returned (err erestartsys));
  }
  interrupt t (r_lost buf count nonblock) s = record s {
    threads = update s.threads t (returned (err erestartsys));
  }
  interrupt t (w_asleep buf count nonblock woken) s = record s {
    threads = update s.threads t (returned (err erestartsys));
  }
  interrupt t pc s = s

  unfoldable pub enter : ℕ → Request → Pc → System U.users.User → System U.users.User
  unfolding begin
  enter t req idle s = record s { threads = update s.threads t (begin req) }
  enter t req (returned r) s = record s { threads = update s.threads t (begin req) }
  enter t req pc s = s

  unfoldable pub lose_entry : ℕ → Pc → System U.users.User → System U.users.User
  lose_entry t (r_asleep buf count nonblock false) s = record s {
    threads = update s.threads t (r_lost buf count nonblock);
  }
  lose_entry t pc s = s

  unfoldable pub step : Event U.users.User → System U.users.User → System U.users.User
  unfolding go_on interrupt enter lose_entry
  step (call t req) s = enter t req (s.threads t) s
  step (run t) s = go_on t (s.threads t) s
  step (signal t) s = interrupt t (s.threads t) s
  step (touch user) s = record s { user = user }
  step (lose t) s = lose_entry t (s.threads t) s

  unfoldable pub run_all : List (Event U.users.User) → System U.users.User → System U.users.User
  unfolding step
  run_all [] s = s
  run_all (e ∷ es) s = run_all es (step e s)

  -- `hello_init`: an empty device and no thread inside
  abbrev pub start : U.users.User → System U.users.User
  start user = record {
    current_len = 0;
    mem = λ _. 0;
    mutex = none;
    threads = λ _. idle;
    user = user;
    sent = [];
    got = [];
  }
