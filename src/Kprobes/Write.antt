-- ===== src/Kprobes/Write.antt =====
-- The memory that `vfs_write_pre` writes.
use learn_k.Base.{
  ℕ, ◌+◌, ◌≤◌, ◌≡◌, refl, Bool, true, false, ◌||◌, List, arith, ltb, ◌==◌, length, Bool-cases, inl,
  inr,
}
use learn_k.Memory.{Bytes, store_all, memset}
use learn_k.Kernel.{Returns, UserMem}
use learn_k.Kprobes.{
  State, test_txt, strcmp_eq, is_err_or_null, free_path, get_absolute_path, vfs_write_pre,
}

heap_behind :
    (m : Bytes) (n : ℕ) (bs : List ℕ)
    → length bs ≤ n
    → (i : ℕ) → n ≤ i
    → store_all (memset m 0 0 n) 0 bs i ≡ m i
unfolding store_all memset
heap_behind m n bs h i j = ground arith

module _ (U : UserMem) (strnlen_user : U.User → ℕ → ℕ) where
  -- Nothing behind the block changes, and no path buffer is left over.
  pub record Fits (size : ℕ) (s s' : State U.User) : Type 0 where
    pub behind : (i : ℕ) → size ≤ i → s'.heap i ≡ s.heap i
    pub buffers : s'.buffers ≡ s.buffers

  -- For a write of at most as many bytes as the text that it finds there is long, with its
  -- terminator and one more, and where there is memory, `vfs_write_pre` ends, writes nothing behind
  -- its block and frees the buffer of the path.
  pub vfs_write_pre-Fits :
      (fname : List ℕ) (kmalloc : Bool) (buf count : ℕ) (s : State U.User)
      → count ≤ strnlen_user s.user buf + 1
      → Returns
          (λ _ s'. Fits (strnlen_user s.user buf + 1) s s')
          (vfs_write_pre U strnlen_user fname true kmalloc true buf count s)
  unfolding vfs_write_pre get_absolute_path free_path
  vfs_write_pre-Fits fname kmalloc buf count s h = elim (Bool-cases (strcmp_eq fname test_txt)) [
    | inr other ↦ rw other unchanged
    | inl watched ↦ elim (Bool-cases (is_err_or_null buf)) [
      | inl bad ↦ rw (watched, bad) unchanged
      | inr good ↦
          elim (Bool-cases ((strnlen_user s.user buf == 0) || ltb 4096 (strnlen_user s.user buf))) [
            | inl no_text ↦ rw (watched, good, no_text) unchanged
            | inr text ↦ elim (Bool-cases ((U.copy_from_user s.user buf count).0 == 0)) [
              | inr fault ↦
                  rw (watched, good, text, fault) (record { behind = behind; buffers = refl })
              | inl copied ↦ rw (watched, good, text, copied) (freed kmalloc)
            ]
          ]
    ]
  ]
    where
      unchanged : Fits (strnlen_user s.user buf + 1) s s
      unchanged = record { behind = λ i j. refl; buffers = refl }

      behind :
          (i : ℕ)
          → strnlen_user s.user buf + 1 ≤ i
          → store_all
              (memset s.heap 0 0 (strnlen_user s.user buf + 1))
              0
              (U.copy_from_user s.user buf count).1
              i
            ≡ s.heap i
      behind =
          heap_behind s.heap (strnlen_user s.user buf + 1) (U.copy_from_user s.user buf count).1
            (omega (arith, h, U.length-copy_from_user s.user buf count))

      freed :
          (k : Bool)
          → Fits (strnlen_user s.user buf + 1) s (
              free_path k (
                get_absolute_path k (record s {
                  heap =
                      store_all
                        (memset s.heap 0 0 (strnlen_user s.user buf + 1))
                        0
                        (U.copy_from_user s.user buf count).1;
                  size = strnlen_user s.user buf + 1;
                })))
      freed true = record { behind = behind; buffers = omega arith }
      freed false = record { behind = behind; buffers = refl }
