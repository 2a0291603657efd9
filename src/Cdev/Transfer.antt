-- ===== src/Cdev/Transfer.antt =====
-- `hello_read` and `hello_write`: what they move, and what they leave alone.
use learn_k.Base.{
  ℕ, ◌+◌, ◌-◌, ◌%◌, ◌^◌, ◌≤◌, ◌<◌, ◌≡◌, refl, ◌∙◌, List, ◌⊎◌, inl, inr, true, false, min, arith,
  ◌==◌, if◌then◌else◌, Bool-cases,
}
use learn_k.Base.Int.{pos}
use learn_k.Memory.{slice, store_all}
use learn_k.Memory.Laws.{length-slice, slice-store_all_of_length, store_all_outside}
use learn_k.Kernel.{efault, Ret, val, err, done, Returns, UserMem, view-copy_of_length, copied-view}
use learn_k.Cdev.Seek.{hellodev_size}
use learn_k.Cdev.{State, clip, hello_read, hello_write}

-- how many bytes a call for `size` bytes moves at position `p`
abbrev pub room : ℕ → ℕ → ℕ
room p size = min (size % 2 ^ 32) (hellodev_size - p)

module _ (U : UserMem) where
  clip-room : (p size : ℕ) → clip U p size ≡ room p size
  unfolding clip
  clip-room p size = ground arith

  -- A handler is ready to run: the file is open and the mutex free.
  pub record IsReady (s : State U.User) (p : ℕ) : Type 0 where
    pub free : s.held ≡ false
    pub opened : s.private_data ≡ true
    pub at : s.f_pos ≡ pos p

  module _ {s : State U.User} {p : ℕ} (ready : IsReady s p) (inside : p < hellodev_size) where
    -- The outcome of a read in one equation.
    pub hello_read-eq :
        (buf size : ℕ)
        → let (left, user) = U.copy_to_user s.user buf (slice s.mem p (room p size)) in
          hello_read U buf size s ≡ (
            if left == 0
            then done (val (room p size)) (record s { user = user; f_pos = pos (p + room p size) })
            else done (err efault) (record s { user = user }))
    unfolding hello_read
    hello_read-eq buf size = ground arith

    -- The outcome of a write in one equation.
    pub hello_write-eq :
        (buf size : ℕ)
        → let (left, bs) = U.copy_from_user s.user buf (room p size) in
          hello_write U buf size s ≡ (
            if left == 0
            then done
                (val (room p size))
                (record s { mem = store_all s.mem p bs; f_pos = pos (p + room p size) })
            else done (err efault) (record s { mem = store_all s.mem p bs }))
    unfolding hello_write
    hello_write-eq buf size = ground arith

-- What a read for `n` bytes at `p` leaves: the device as it was, and either the bytes with the
-- position behind them, or a fault with the position unmoved.
abbrev pub ReadDone : (U : UserMem) → State U.User → (p buf n : ℕ) → Ret → State U.User → Type 0
ReadDone U s p buf n r s' =
    (s'.mem ≡ s.mem)
    × (s'.held ≡ false)
    × (s'.private_data ≡ true)
    × (((r ≡ val n) × (U.view s'.user buf n ≡ slice s.mem p n) × (s'.f_pos ≡ pos (p + n)))
        ⊎ ((r ≡ err efault) × (s'.f_pos ≡ pos p)))

-- What a write of `n` bytes at `p` leaves: the bytes outside the range and the process's memory as
-- they were, and either the bytes in place with the position behind them, or a fault with the
-- position unmoved.
abbrev pub WriteDone : (U : UserMem) → State U.User → (p buf n : ℕ) → Ret → State U.User → Type 0
WriteDone U s p buf n r s' =
    ((i : ℕ) → (i < p) ⊎ (p + n ≤ i) → s'.mem i ≡ s.mem i)
    × (s'.user ≡ s.user)
    × (s'.held ≡ false)
    × (s'.private_data ≡ true)
    × (((r ≡ val n) × (slice s'.mem p n ≡ U.view s.user buf n) × (s'.f_pos ≡ pos (p + n)))
        ⊎ ((r ≡ err efault) × (s'.f_pos ≡ pos p)))

module _ (U : UserMem) where
  -- Inside the device a read returns, with the mutex free, and hands over as many bytes as were
  -- asked for (modulo 2^32) and are left behind the position, or fails with a fault.
  pub hello_read_lem :
      (s : State U.User) (p buf size : ℕ)
      → IsReady U s p
      → p < hellodev_size
      → Returns (ReadDone U s p buf (room p size)) (hello_read U buf size s)
  hello_read_lem s p buf size ready inside =
      rw (hello_read-eq U ready inside buf size)
        (elim (Bool-cases ((U.copy_to_user s.user buf (slice s.mem p n)).0 == 0)) [
          | inl ok ↦ rw ok (
            refl,
            ready.free,
            ready.opened,
            inl (refl, view-copy_of_length U s.user buf n _ (length-slice s.mem p n) ok, refl),
          )
          | inr bad ↦ rw bad (refl, ready.free, ready.opened, inr (refl, ready.at))
        ])
    where
      n : ℕ
      n = room p size

  -- Inside the device a write returns, with the mutex free, and puts as many bytes as were given
  -- (modulo 2^32) and fit behind the position, and no others, or fails with a fault.
  pub hello_write_lem :
      (s : State U.User) (p buf size : ℕ)
      → IsReady U s p
      → p < hellodev_size
      → Returns (WriteDone U s p buf (room p size)) (hello_write U buf size s)
  hello_write_lem s p buf size ready inside =
      rw (hello_write-eq U ready inside buf size)
        (elim (Bool-cases ((U.copy_from_user s.user buf n).0 == 0)) [
          | inl ok ↦ rw ok (
            outside,
            refl,
            ready.free,
            ready.opened,
            inl (refl, placed ∙ copied-view U s.user buf n ok, refl),
          )
          | inr bad ↦ rw bad (outside, refl, ready.free, ready.opened, inr (refl, ready.at))
        ])
    where
      n : ℕ
      n = room p size

      bs : List ℕ
      bs = (U.copy_from_user s.user buf n).1

      outside : (i : ℕ) → (i < p) ⊎ (p + n ≤ i) → store_all s.mem p bs i ≡ s.mem i
      outside = store_all_outside s.mem p n bs (U.length-copy_from_user s.user buf n)

      placed : slice (store_all s.mem p bs) p n ≡ bs
      placed = slice-store_all_of_length s.mem p n bs (U.length-copy_from_user s.user buf n)
