-- ===== src/Cdev/RoundTrip.antt =====
-- What was written is read back.
use learn_k.Base.{ℕ, ◌+◌, ◌<◌, ◌≡◌, ◌∙◌, refl, ◌⊎◌, inl, inr, arith}
use mathlib.Core.Logic.{⊎_elim}
use learn_k.Base.Int.{pos}
use learn_k.Memory.{slice}
use learn_k.Kernel.{efault, val, err, done, ◌>>◌, Returns, Returns-done, Returns-mono, UserMem}
use learn_k.Cdev.Seek.{hellodev_size, hello_llseek}
use learn_k.Cdev.Transfer.{IsReady, ReadDone, WriteDone, room, hello_read_lem, hello_write_lem}
use learn_k.Cdev.{State, hello_read, hello_write, llseek}

module _ (U : UserMem) where
  -- Seeking back to where the bytes went.
  llseek_back :
      (s : State U.User) (p : ℕ)
      → p < hellodev_size
      → llseek U (pos p) 0 s ≡ done (val p) (record s { f_pos = pos p })
  unfolding llseek hello_llseek
  llseek_back s p h = ground arith

  -- After a write that reports its `n` bytes written, a seek back to where it began and a read of
  -- the same size give the process, at another address, the bytes that it wrote, or fail with a
  -- fault.
  pub hello_read-hello_write :
      (s s₁ : State U.User) (p buf buf' size : ℕ)
      → IsReady U s p
      → p < hellodev_size
      → hello_write U buf size s ≡ done (val (room p size)) s₁
      → Returns
          (λ r s₂.
            ((r ≡ val (room p size))
              × (U.view s₂.user buf' (room p size) ≡ U.view s.user buf (room p size)))
            ⊎ (r ≡ err efault))
          ((llseek U (pos p) 0 >> hello_read U buf' size) s₁)
  hello_read-hello_write s s₁ p buf buf' size ready inside wrote =
      let w =
        Returns-done (WriteDone U s p buf n) wrote (hello_write_lem U s p buf size ready inside) in
      rw (llseek_back s₁ p inside) (
        Returns-mono (ReadDone U s₂ p buf' n) _ (hello_read U buf' size s₂)
          (λ r s₃ got.
            ⊎_elim
              (λ (e : (r ≡ val n)
                  × (U.view s₃.user buf' n ≡ slice s₁.mem p n)
                  × (s₃.f_pos ≡ pos (p + n))).
                inl (e.0, e.1 ∙ written w))
              (λ e. inr e.0) got.3)
          (hello_read_lem U s₂ p buf' size (record { free = w.2; opened = w.3; at = refl }) inside))
    where
      n : ℕ
      n = room p size

      s₂ : State U.User
      s₂ = record s₁ { f_pos = pos p }

      written : WriteDone U s p buf n (val n) s₁ → slice s₁.mem p n ≡ U.view s.user buf n
      written w = ground arith
