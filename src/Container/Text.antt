-- ===== src/Container/Text.antt =====
-- `to_string` and `build_string` of src/list/container.c.
use learn_k.Base.{
  ℕ, zero, suc, ◌+◌, Bool, true, false, Option, none, some, ◌∷◌, ◌==◌, if◌then◌else◌,
}
use learn_k.Memory.{Bytes, store}
use learn_k.Kernel.{done, blocked, ◌>>=◌}
use learn_k.Container.Links.{Ptr, ListApi}
use learn_k.Container.Core.{Cmd, pure, value_at, next_of}
use learn_k.Printf.{print_at}
use learn_k.Printf.Decimal.{decimal}

-- `*ptr++ = c`
abbrev pub put_byte : ℕ → Bytes × ℕ → Bytes × ℕ
put_byte c (buffer, ptr) = (store buffer ptr c, ptr + 1)

module _ (K : ListApi) where
  -- The `list_for_each` of `to_string`: the buffer and `ptr - buffer`; 44 is the comma.
  unfoldable pub to_string_loop : ℕ → (head p : Ptr) → Bytes × ℕ → Cmd K (Bytes × ℕ)
  unfolding value_at
  to_string_loop zero head p out s = blocked
  to_string_loop (suc fuel) head p out s =
      if p == head
      then done out s
      else (do
        v ← value_at K p
        q ← next_of K p
        to_string_loop fuel head q (
            print_at (if K.list_is_first s.links p head then out else put_byte 44 out) (decimal v)))
          s

  -- The flag says whether `kmalloc` succeeds, and `garbage` is what the buffer holds at first; 91
  -- and 93 are the brackets.
  unfoldable pub to_string : ℕ → Bool → Bytes → Ptr → Cmd K (Option Bytes)
  unfolding to_string_loop
  to_string fuel false garbage head = pure K none
  to_string fuel true garbage head = do
    p ← next_of K head
    (buffer, ptr) ← to_string_loop fuel head p (put_byte 91 (garbage, 0))
    pure K (some (store (store buffer ptr 93) (ptr + 1) 0))

  -- It calls itself with the same `pos`.
  unfoldable pub build_string : ℕ → (head pos : Ptr) → Bytes × ℕ → Cmd K (Bytes × ℕ)
  unfolding value_at
  build_string zero head pos out = λ s. blocked
  build_string (suc fuel) head pos out = if pos == head then pure K out else do
    out' ← build_string fuel head pos out
    v ← value_at K pos
    pure K (print_at out' (44 ∷ decimal v))
