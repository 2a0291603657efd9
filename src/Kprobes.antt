-- ===== src/Kprobes.antt =====
-- src/hook/main.c: kprobes that watch a file with the name test.txt.
pub mod Write
pub mod Leak
mod Tests
use learn_k.Base.{
  ℕ, zero, suc, ◌+◌, ◌-◌, ◌^◌, Bool, true, false, not, ◌&&◌, ◌||◌, Option, none, some, List, [],
  ◌∷◌, ltb, leb, ◌==◌, if◌then◌else◌,
}
use learn_k.Memory.{Bytes, store_all, memset}
use learn_k.Kernel.{efault, Ret, val, err, Run, done, oops, ◌>>=◌, ◌>>◌, UserMem}
use learn_k.Hook.BuildPath as Hook
use learn_k.Hook.BuildPath.{Dentry}

-- How many path buffers are allocated, the memory from the data block on (which is freed on every
-- path that allocates it) with the size that was asked for it, and the calling process.
pub record State (User : Type 0) : Type 0 where
  pub buffers : ℕ
  pub heap : Bytes
  pub size : ℕ
  pub user : User

-- the bytes of "test.txt"
abbrev pub test_txt : List ℕ
test_txt = 116 ∷ 101 ∷ 115 ∷ 116 ∷ 46 ∷ 116 ∷ 120 ∷ 116 ∷ []

-- `strcmp(a, b) == 0`
unfoldable pub strcmp_eq : List ℕ → List ℕ → Bool
strcmp_eq [] [] = true
strcmp_eq [] (b ∷ bs) = false
strcmp_eq (a ∷ as') [] = false
strcmp_eq (a ∷ as') (b ∷ bs) = (a == b) && strcmp_eq as' bs

-- `build_path` is that of src/hook/khook.c.
unfoldable pub build_path : Dentry → Bytes × ℕ → Bytes × ℕ
build_path = Hook.build_path

-- `IS_ERR_OR_NULL`
abbrev pub is_err_or_null : ℕ → Bool
is_err_or_null p = (p == 0) || leb (2 ^ 64 - 4095) p

module _ {User : Type 0} where
  -- `get_absolute_path`; the flag says whether there is memory for the buffer.
  unfoldable pub get_absolute_path : Bool → State User → State User
  get_absolute_path allocated s = if allocated then record s { buffers = s.buffers + 1 } else s

  -- `kfree` of what `get_absolute_path` returned, which may be `NULL`
  unfoldable pub free_path : Bool → State User → State User
  free_path allocated s = if allocated then record s { buffers = s.buffers - 1 } else s

  unfoldable pub vfs_write_post : List ℕ → Bool → State User → State User
  unfolding get_absolute_path free_path
  vfs_write_post fname allocated s =
      let t = get_absolute_path allocated s in
      if strcmp_eq fname test_txt then free_path allocated t else t

  -- It prints the two names.
  unfoldable pub vfs_rename_pre : List ℕ → State User → Ret × State User
  vfs_rename_pre fname s = (val 0, s)

  unfoldable pub vfs_unlink_pre : List ℕ → Bool → State User → Ret × State User
  unfolding get_absolute_path
  vfs_unlink_pre fname allocated s =
      if strcmp_eq fname test_txt then (val 0, get_absolute_path allocated s) else (val 0, s)

-- `strnlen_user` is what that function of the kernel answers for `buf` and `PATH_MAX`. The flags say
-- whether `kzalloc` and the buffer's `kmalloc` succeed: `PTR_ERR_OR_ZERO` lets `NULL` pass;
-- and whether `pos` points to a number, or is `NULL`, as for a stream.
module _ (U : UserMem) (strnlen_user : U.User → ℕ → ℕ) where
  unfoldable pub vfs_write_pre :
      List ℕ
      → (kzalloc kmalloc pos : Bool) → (buf count : ℕ) → State U.User
      → Run (State U.User) Ret
  unfolding get_absolute_path free_path
  vfs_write_pre fname kzalloc kmalloc pos buf count s =
      let slen = strnlen_user s.user buf in
      let (left, bs) = U.copy_from_user s.user buf count in
      let zeroed = record s { heap = memset s.heap 0 0 (slen + 1); size = slen + 1 } in
      let filled = record zeroed { heap = store_all zeroed.heap 0 bs } in
      if not (strcmp_eq fname test_txt)
      then done (val 0) s
      else if is_err_or_null buf
      then done (err efault) s
      else if (slen == 0) || ltb 4096 slen
      then done (err efault) s
      else if not kzalloc
      then (if count == 0 then done (val 0) s else oops)
      else if not (left == 0)
      then done (err efault) filled
      else if not pos
      then oops
      else done (val 0) (free_path kmalloc (get_absolute_path kmalloc filled))

-- `hook_init` and `hook_exit`: which of the three kprobes are registered; what `register_kprobe`
-- returns is dropped.
unfoldable pub hook_init : (write rename unlink : Bool) → List Bool
hook_init write rename unlink = write ∷ rename ∷ unlink ∷ []

unfoldable pub hook_exit : List Bool → List Bool
hook_exit [] = []
hook_exit (k ∷ ks) = false ∷ hook_exit ks
