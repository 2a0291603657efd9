-- ===== src/Cdev.antt =====
-- src/cdev/main.c: a character device of 4096 bytes with a file position.
pub mod Seek
pub mod Position
pub mod Transfer
pub mod Session
pub mod Setup
pub mod RoundTrip
mod Tests
use learn_k.Base.{ℕ, ◌+◌, ◌-◌, ◌%◌, ◌^◌, Bool, true, false, ltb, leb, ◌==◌, if◌then◌else◌}
use learn_k.Base.Int.{ℤ, pos, u64, add_s64}
use learn_k.Memory.{Bytes, slice, store_all, memset}
use learn_k.Kernel.{einval, efault, Ret, val, err, Run, done, blocked, oops, ◌>>=◌, ◌>>◌, UserMem}
use learn_k.Cdev.Seek.{hellodev_size, hello_llseek}

abbrev pub mem_clear : ℕ
mem_clear = 1

-- The device, the open file and the calling process. `held` is the state of `dev->mutex`, and
-- `private_data` says whether `filp->private_data` points at the device. `f_pos` is also what the
-- `ppos` of a read or write points at.
pub record State (User : Type 0) : Type 0 where
  pub mem : Bytes
  pub held : Bool
  pub private_data : Bool
  pub f_pos : ℤ
  pub user : User

module _ (U : UserMem) where
  abbrev Cmd : Type 0 → Type 0
  Cmd A = State U.User → Run (State U.User) A

  abbrev ret : Ret → Cmd Ret
  ret r s = done r s

  -- `filp->private_data`, which every handler but `open` and `release` dereferences
  get_dev : Cmd (Unit {0})
  get_dev s = if s.private_data then done tt s else oops

  mutex_lock : Cmd (Unit {0})
  mutex_lock s = if s.held then blocked else done tt (record s { held = true })

  mutex_unlock : Cmd (Unit {0})
  mutex_unlock s = done tt (record s { held = false })

  pub hello_open : Cmd Ret
  hello_open s = done (val 0) (record s { private_data = true })

  pub hello_release : Cmd Ret
  hello_release s = done (val 0) s

  clear_mem : Cmd (Unit {0})
  clear_mem s = done tt (record s { mem = memset s.mem 0 0 hellodev_size })

  pub hello_ioctl : ℕ → Cmd Ret
  unfolding get_dev mutex_lock mutex_unlock clear_mem
  hello_ioctl cmd =
      if cmd == mem_clear
      then (do get_dev; mutex_lock; clear_mem; mutex_unlock; ret (val 0))
      else ret (err einval)

  -- `count = size`, cut to 32 bits and then to what is left behind `p`
  pub clip : ℕ → ℕ → ℕ
  clip p size =
      let count = size % 2 ^ 32 in
      if ltb (hellodev_size - p) count then hellodev_size - p else count

  send : ℕ → ℕ → ℕ → Cmd Ret
  send buf p count s =
      let (left, user) = U.copy_to_user s.user buf (slice s.mem p count) in
      if left == 0
      then done (val count) (record s { user = user; f_pos = add_s64 s.f_pos (pos count) })
      else done (err efault) (record s { user = user })

  pub hello_read : (buf size : ℕ) → Cmd Ret
  unfolding get_dev mutex_lock mutex_unlock clip send
  hello_read buf size s =
      let p = u64 s.f_pos in
      if leb hellodev_size p
      then done (val 0) s
      else (do get_dev; mutex_lock; r ← send buf p (clip p size); mutex_unlock; ret r) s

  receive : ℕ → ℕ → ℕ → Cmd Ret
  receive buf p count s =
      let (left, bs) = U.copy_from_user s.user buf count in
      let mem = store_all s.mem p bs in
      if left == 0
      then done (val count) (record s { mem = mem; f_pos = add_s64 s.f_pos (pos count) })
      else done (err efault) (record s { mem = mem })

  pub hello_write : (buf size : ℕ) → Cmd Ret
  unfolding get_dev mutex_lock mutex_unlock clip receive
  hello_write buf size s =
      let p = u64 s.f_pos in
      if leb hellodev_size p
      then done (val 0) s
      else (do get_dev; mutex_lock; r ← receive buf p (clip p size); mutex_unlock; ret r) s

  -- `llseek` works on `filp->f_pos` alone.
  pub llseek : ℤ → ℕ → Cmd Ret
  llseek offset orig s =
      let (r, f_pos) = hello_llseek s.f_pos offset orig in done r (record s { f_pos = f_pos })
