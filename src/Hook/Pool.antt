-- ===== src/Hook/Pool.antt =====
-- The pool of parameters and the kretprobe handlers of src/hook/khook.c.
use learn_k.Base.{
  ltb, length, ◌&&◌, ℕ, Bool, true, false, Option, none, some, List, [], ◌∷◌, ◌++◌, ◌==◌,
  if◌then◌else◌,
}
use learn_k.Memory.{Bytes}
use learn_k.Kernel.{Ret, val, Run, done, blocked, oops, ◌>>=◌, ◌>>◌}
use learn_k.Container.Links.{Ptr}
use learn_k.Strings.{at_most}
use learn_k.Printf.{read_text}
use learn_k.Rbtree.Keys.{nat_order}
use learn_k.Rbtree.{Tree, leaf, RbApi, insert_entry, remove_entry, clear}
use learn_k.Rbtree as Rbtree
use learn_k.Hook.BuildPath.{Dentry, get_absolute_path}

-- `struct mount_params` with its address; it does not change once it is in the pool.
pub record MountParams : Type 0 where
  pub addr : Ptr
  pub dev_name : List ℕ
  pub dir_name : List ℕ
  pub fs_type : List ℕ
  pub flags : ℕ

abbrev pub Root : Type 0
Root = Rbtree.State ℕ MountParams

-- `struct probe_pool` with its lock, which `struct mount_params` are allocated, and the parameters
-- that `ret_handler` has printed.
pub record State : Type 0 where
  pub pool : Root
  pub locked : Bool
  pub params : Ptr → Bool
  pub printed : List MountParams

-- `struct pt_regs`, the registers that are read
pub record Regs : Type 0 where
  pub di : ℕ
  pub si : ℕ
  pub dx : ℕ
  pub r10 : ℕ
  pub r8 : ℕ
  pub ax : ℕ

abbrev pub set_params : (Ptr → Bool) → Ptr → Bool → Ptr → Bool
set_params f p b q = if q == p then b else f q

unfoldable pub pt_regs_params : Regs → ℕ → ℕ
pt_regs_params regs idx =
    if idx == 0
    then regs.di
    else if idx == 1
    then regs.si
    else if idx == 2
    then regs.dx
    else if idx == 3
    then regs.r10
    else if idx == 4
    then regs.r8
    else 0

abbrev pub Cmd : Type 0 → Type 0
Cmd A = State → Run State A

-- a command on the tree
abbrev pub on_root : {A : Type 0} → (Root → Run Root A) → Cmd A
on_root m s = elim (m s.pool) [
  | done a t ↦ done a (record s { pool = t })
  | blocked ↦ blocked
  | oops ↦ oops
]

abbrev pub spin_lock : Cmd (Unit {0})
spin_lock s = if s.locked then blocked else done tt (record s { locked = true })

abbrev pub spin_unlock : Cmd (Unit {0})
spin_unlock s = done tt (record s { locked = false })

abbrev pub ret : {A : Type 0} → A → Cmd A
ret a s = done a s

-- `kfree` of a `struct mount_params`
abbrev pub free_params : Ptr → Cmd (Unit {0})
free_params p s =
    if s.params p then done tt (record s { params = set_params s.params p false }) else oops

-- `strncpy` has left a terminator in each field.
abbrev pub terminated : MountParams → Bool
terminated p =
    ltb (length p.dev_name) 256 && ltb (length p.dir_name) 256 && ltb (length p.fs_type) 64

-- What follows `pop_params`. A field without terminator is printed on past its end, in the worst case
-- out of the block: that is counted as a crash.
unfoldable pub report : Option MountParams → Cmd Ret
report none = ret (val 0)
report (some p) =
    if terminated p
    then (do
      (λ s. done tt (record s { printed = s.printed ++ (p ∷ []) }))
      free_params p.addr
      ret (val 0))
    else λ s. oops

-- What is read at three addresses; `none` if one of them, such as `NULL`, cannot be read.
abbrev pub read_three :
    {A : Type 0}
    → Option (List ℕ)
    → Option Dentry
    → Option (List ℕ)
    → (List ℕ → Dentry → List ℕ → Cmd A)
    → Cmd A
read_three (some t) (some d) (some u) k = k t d u
read_three (some t) (some d) none k = λ s. oops
read_three (some t) none u k = λ s. oops
read_three none d u k = λ s. oops

module _ (B : RbApi ℕ MountParams) where
  unfoldable pub insert_node : Option Ptr → ℕ → MountParams → Root → Run Root Ret
  insert_node fresh key params t = insert_entry B fresh key params t

  unfoldable pub pop_node : ℕ → Root → Run Root (Option MountParams)
  pop_node key t = remove_entry B key t

  -- What `insert_node` returns is dropped.
  unfoldable pub insert_params : Option Ptr → ℕ → MountParams → Cmd Ret
  unfolding insert_node
  insert_params fresh key params = do
    spin_lock
    on_root (insert_node fresh key params)
    spin_unlock
    ret (val 0)

  unfoldable pub pop_params : ℕ → Cmd (Option MountParams)
  unfolding pop_node
  pop_params key = do spin_lock; params ← on_root (pop_node key); spin_unlock; ret params

  unfoldable pub probe_pool_clear : ℕ → Cmd (Unit {0})
  probe_pool_clear fuel = do spin_lock; on_root (clear B fuel); spin_unlock; ret tt

  -- `text` is the C string at an address, `dentry` the `dentry` of the `struct path` at an address.
  module _ (text : ℕ → Option (List ℕ)) (dentry : ℕ → Option Dentry) where
    -- The addresses and the flag are what the three `kmalloc` return, for the parameters, the entry
    -- of the tree and the buffer of the path. The buffer is not freed.
    unfoldable pub entry_handler :
        (params entry : Option Ptr) → Bool → Bytes → ℕ → Option Regs → Cmd Ret
    unfolding insert_params
    entry_handler none entry buffer garbage ri regs s = done (val 0) s
    entry_handler (some p) entry buffer garbage ri none s =
        done (val 0) (record s { params = set_params s.params p true })
    entry_handler (some p) entry buffer garbage ri (some regs) s =
        if ri == 0
        then done (val 0) (record s { params = set_params s.params p true })
        else read_three (text (pt_regs_params regs 0)) (dentry (pt_regs_params regs 1))
            (text (pt_regs_params regs 2))
            (λ dev d type t. elim (get_absolute_path buffer garbage d) [
              | none ↦ oops
              | some path ↦
                  (insert_params entry ri (record {
                    addr = p;
                    dev_name = at_most 256 dev;
                    dir_name = read_text 256 path 0;
                    fs_type = at_most 64 type;
                    flags = pt_regs_params regs 3;
                  })
                      >> ret (val 0))
                    t
            ])
            (record s { params = set_params s.params p true })

  -- `regs->ax` is read before the test.
  unfoldable pub ret_handler : ℕ → Option Regs → Cmd Ret
  unfolding pop_params report
  ret_handler ri none = λ s. oops
  ret_handler ri (some regs) = do params ← pop_params ri; report params

-- `probe_pool_init`
unfoldable pub probe_pool_init : State → State
probe_pool_init s = record s { pool = record s.pool { root = leaf }; locked = false }
