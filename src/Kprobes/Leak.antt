-- ===== src/Kprobes/Leak.antt =====
-- Path buffers that are never freed.
use learn_k.Base.{ℕ, ◌+◌, ◌≡◌, Bool, ◌&&◌, not, List, [], ◌∷◌, arith, if◌then◌else◌}
use learn_k.Kprobes.{State, test_txt, strcmp_eq, vfs_write_post, vfs_rename_pre, vfs_unlink_pre}

-- A call on a file with a given name that ends in a handler, with whether there is memory.
pub data Event : Type 0 where
  write_post : List ℕ → Bool → Event
  rename_pre : List ℕ → Event
  unlink_pre : List ℕ → Bool → Event

module _ {User : Type 0} where
  unfoldable pub handle : Event → State User → State User
  unfolding vfs_write_post vfs_rename_pre vfs_unlink_pre
  handle (write_post fname allocated) s = vfs_write_post fname allocated s
  handle (rename_pre fname) s = (vfs_rename_pre fname s).1
  handle (unlink_pre fname allocated) s = (vfs_unlink_pre fname allocated s).1

  unfoldable pub handle_all : List Event → State User → State User
  unfolding handle
  handle_all [] s = s
  handle_all (e ∷ es) s = handle_all es (handle e s)

-- A write to another file, or the removal of test.txt.
abbrev pub lost : Event → ℕ
lost (write_post fname allocated) = if allocated && not (strcmp_eq fname test_txt) then 1 else 0
lost (rename_pre fname) = 0
lost (unlink_pre fname allocated) = if allocated && strcmp_eq fname test_txt then 1 else 0

abbrev pub all_lost : List Event → ℕ
all_lost [] = 0
all_lost (e ∷ es) = lost e + all_lost es

handle-lost :
    {User : Type 0} (e : Event) (s : State User) → (handle e s).buffers ≡ s.buffers + lost e
unfolding handle
handle-lost (write_post fname allocated) s = ground arith
handle-lost (rename_pre fname) s = ground arith
handle-lost (unlink_pre fname allocated) s = ground arith

-- Each write to a file other than test.txt and each removal of test.txt leaves one more path buffer
-- allocated, if there is memory for it; no other call does.
pub handle_all-lost :
    {User : Type 0} (es : List Event) (s : State User)
    → (handle_all es s).buffers ≡ s.buffers + all_lost es
unfolding handle_all
handle_all-lost [] s = omega arith
handle_all-lost (e ∷ es) s = omega (arith, handle_all-lost es (handle e s), handle-lost e s)
