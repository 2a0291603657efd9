-- ===== src/Cdev/Session.antt =====
-- Any sequence of system calls on the open device.
use learn_k.Base.{
  ℕ, ◌+◌, ◌≤◌, ◌<◌, ◌≡◌, ◌∙◌, refl, inl, inr, true, false, List, [], ◌∷◌, arith, Bool-cases, ◌==◌,
  if◌then◌else◌,
}
use mathlib.Core.Logic.{⊎_elim}
use native.Mathlib.Decide.{dec_lt}
use learn_k.Base.Int.{ℤ, pos, negsuc}
use learn_k.Memory.{Bytes, slice, memset}
use learn_k.Kernel.{
  Ret, val, err, done, Run, einval, Returns, Returns-mono, Returns-bind, ◌>>=◌, UserMem,
}
use learn_k.Cdev.Seek.{hellodev_size, hello_llseek}
use learn_k.Cdev.Position.{InRange, hello_llseek-InRange}
use learn_k.Cdev.Transfer.{hello_read_lem, hello_write_lem, ReadDone, WriteDone, room}
use learn_k.Cdev.{
  State, mem_clear, hello_open, hello_release, hello_ioctl, hello_read, hello_write, llseek,
}

-- `hello_fops`: the operations of the open file
pub data Call : Type 0 where
  open_file release : Call
  ioctl : ℕ → Call
  read write : (buf size : ℕ) → Call
  seek : ℤ → ℕ → Call

module _ (U : UserMem) where
  pub call : Call → State U.User → Run (State U.User) Ret
  call open_file = hello_open U
  call release = hello_release U
  call (ioctl cmd) = hello_ioctl U cmd
  call (read buf size) = hello_read U buf size
  call (write buf size) = hello_write U buf size
  call (seek offset orig) = llseek U offset orig

  pub session : List Call → State U.User → Run (State U.User) (List Ret)
  session [] = done []
  session (c ∷ cs) = call c >>= λ r. session cs >>= λ rs. done (r ∷ rs)

  -- Between calls: the file is open, the mutex free, the position inside the device, and every byte
  -- behind the device as in `m`.
  pub record IsSafe (m : Bytes) (s : State U.User) : Type 0 where
    pub free : s.held ≡ false
    pub opened : s.private_data ≡ true
    pub position : InRange s.f_pos
    pub behind : (i : ℕ) → hellodev_size ≤ i → s.mem i ≡ m i

  abbrev pub Bounded : Ret → Type 0
  Bounded r = (n : ℕ) → r ≡ val n → n ≤ hellodev_size

  position-cases : (z : ℤ) → InRange z → (p : ℕ) × (z ≡ pos p) × (p ≤ hellodev_size)
  position-cases (pos n) h = (n, refl, omega arith)
  position-cases (negsuc n) h = absurd (omega arith)

  hello_llseek-Bounded : (f_pos offset : ℤ) (orig : ℕ) → Bounded (hello_llseek f_pos offset orig).0
  unfolding hello_llseek
  hello_llseek-Bounded f_pos offset orig n e = ground arith

  abbrev Kept : Bytes → Ret → State U.User → Type 0
  Kept m r s = IsSafe m s × Bounded r

  module _ (m : Bytes) (s : State U.User) (safe : IsSafe m s) where
    ioctl-eq :
        (cmd : ℕ)
        → hello_ioctl U cmd s ≡ (
            if cmd == mem_clear
            then done (val 0) (record s { mem = memset s.mem 0 0 hellodev_size })
            else done (err einval) s)
    unfolding hello_ioctl
    ioctl-eq cmd = ground arith

    ioctl-Kept : (cmd : ℕ) → Returns (Kept m) (hello_ioctl U cmd s)
    unfolding memset
    ioctl-Kept cmd = rw (ioctl-eq cmd) (elim (Bool-cases (cmd == mem_clear)) [
      | inl yes' ↦ rw yes' cleared
      | inr no' ↦ rw no' (safe, λ n e. cc)
    ])
      where
        wiped : State U.User
        wiped = record s { mem = memset s.mem 0 0 hellodev_size }

        cleared : Kept m (val 0) wiped
        cleared = (
          record {
            free = safe.free;
            opened = safe.opened;
            position = safe.position;
            behind = λ i h. ground (arith, safe.behind i);
          },
          λ n e. ground arith,
        )

    seek-Kept : (offset : ℤ) (orig : ℕ) → Returns (Kept m) (llseek U offset orig s)
    unfolding llseek
    seek-Kept offset orig = (
      record {
        free = safe.free;
        opened = safe.opened;
        behind = safe.behind;
        position = hello_llseek-InRange s.f_pos offset orig safe.position;
      },
      hello_llseek-Bounded s.f_pos offset orig,
    )

    -- At the end of the device both transfers return 0 and do nothing.
    at_end :
        (p buf size : ℕ)
        → s.f_pos ≡ pos p
        → p ≡ hellodev_size
        → (hello_read U buf size s ≡ done (val 0) s) × (hello_write U buf size s ≡ done (val 0) s)
    unfolding hello_read hello_write
    at_end p buf size e h = (ground arith, ground arith)

    moved : (p size : ℕ) (z : ℤ) → p < hellodev_size → z ≡ pos (p + room p size) → InRange z
    moved p size z h e = ground arith

    read-Kept : (buf size : ℕ) → Returns (Kept m) (hello_read U buf size s)
    read-Kept buf size =
        let (p, e, le) = position-cases s.f_pos safe.position in
        elim (dec_lt p hellodev_size) [
          | no end ↦ rw ((at_end p buf size e (omega arith)).0) (safe, λ n e. ground arith)
          | yes inside ↦
              Returns-mono (ReadDone U s p buf (room p size)) _ (hello_read U buf size s)
                (λ r s' got. (
                  record {
                    free = got.1;
                    opened = got.2;
                    position =
                        ⊎_elim
                          (λ (h : (r ≡ val (room p size))
                              × (U.view s'.user buf (room p size) ≡ slice s.mem p (room p size))
                              × (s'.f_pos ≡ pos (p + room p size))).
                            moved p size s'.f_pos inside h.2)
                          (λ h. rw (h.1) (omega arith)) got.3;
                    behind = λ i h. ground (arith, safe.behind i);
                  },
                  λ n e. ground arith,
                ))
                (hello_read_lem U s p buf size
                  (record { free = safe.free; opened = safe.opened; at = e }) inside)
        ]

    write-Kept : (buf size : ℕ) → Returns (Kept m) (hello_write U buf size s)
    write-Kept buf size =
        let (p, e, le) = position-cases s.f_pos safe.position in
        elim (dec_lt p hellodev_size) [
          | no end ↦ rw ((at_end p buf size e (omega arith)).1) (safe, λ n e. ground arith)
          | yes inside ↦
              Returns-mono (WriteDone U s p buf (room p size)) _ (hello_write U buf size s)
                (λ r s' got. (
                  record {
                    free = got.2;
                    opened = got.3;
                    position =
                        ⊎_elim
                          (λ (h : (r ≡ val (room p size))
                              × (slice s'.mem p (room p size) ≡ U.view s.user buf (room p size))
                              × (s'.f_pos ≡ pos (p + room p size))).
                            moved p size s'.f_pos inside h.2)
                          (λ h. rw (h.1) (omega arith)) got.4;
                    behind = λ i h. got.0 i (inr (omega arith)) ∙ safe.behind i h;
                  },
                  λ n e. ground arith,
                ))
                (hello_write_lem U s p buf size
                  (record { free = safe.free; opened = safe.opened; at = e }) inside)
        ]

  call-Kept : (m : Bytes) (c : Call) (s : State U.User) → IsSafe m s → Returns (Kept m) (call c s)
  unfolding call hello_open hello_release
  call-Kept m open_file s safe = (
    record { free = safe.free; opened = refl; position = safe.position; behind = safe.behind },
    λ n e. ground arith,
  )
  call-Kept m release s safe = (safe, λ n e. ground arith)
  call-Kept m (ioctl cmd) s safe = ioctl-Kept m s safe cmd
  call-Kept m (read buf size) s safe = read-Kept m s safe buf size
  call-Kept m (write buf size) s safe = write-Kept m s safe buf size
  call-Kept m (seek offset orig) s safe = seek-Kept m s safe offset orig

  abbrev pub AllBounded : List Ret → Type 0
  AllBounded [] = Unit
  AllBounded (r ∷ rs) = Bounded r × AllBounded rs

  -- Whatever a process calls on the open device, in whatever order, every call returns: none waits
  -- forever and none crashes. Each ends with the mutex free and the position inside the device,
  -- returns no more than the size of the device, and no byte behind the device is ever changed.
  pub session-IsSafe :
      (cs : List Call) (m : Bytes) (s : State U.User)
      → IsSafe m s
      → Returns (λ rs s'. IsSafe m s' × AllBounded rs) (session cs s)
  unfolding session
  session-IsSafe [] m s safe = (safe, tt)
  session-IsSafe (c ∷ cs) m s safe =
      Returns-bind (Kept m) _ (call c s) _ (call-Kept m c s safe) λ r s' kept.
        Returns-bind (λ rs s'. IsSafe m s' × AllBounded rs) _ (session cs s') _
          (session-IsSafe cs m s' kept.0) λ rs s'' rest. (rest.0, (kept.1, rest.1))
