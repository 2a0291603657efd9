-- ===== src/Hook/Handlers.antt =====
-- Interleavings of calls that enter and calls that return.
use learn_k.Base.{ℕ, ◌≡◌, ◌≢◌, true, false, Option, none, some, List, [], ◌∷◌, ◌++◌}
use learn_k.Memory.{Bytes}
use learn_k.Kernel.{Ret, val, Run, done, ◌>>◌, Returns}
use learn_k.Container.Links.{Ptr}
use learn_k.Strings.{at_most}
use learn_k.Printf.{read_text}
use learn_k.Rbtree.Keys.{nat_order}
use learn_k.Rbtree.{RbApi}
use learn_k.Rbtree.Laws.{drop_key}
use learn_k.Hook.BuildPath.{Dentry, null, build_path}
use learn_k.Hook.Pool.{
  MountParams, State, Regs, pt_regs_params, entry_handler, ret_handler, terminated,
}
use learn_k.Hook.Session.{Map, IsPool, kept}

-- A call enters, with the three blocks of memory that `kmalloc` returns, or returns.
pub data Event : Type 0 where
  enter : (params entry : Ptr) → Bytes → (ri : ℕ) → Regs → Event
  leave : ℕ → Regs → Event

abbrev pub shown : Option MountParams → List MountParams
shown none = []
shown (some p) = p ∷ []

abbrev pub text_or : Option (List ℕ) → List ℕ
text_or none = []
text_or (some t) = t

abbrev pub dentry_or : Option Dentry → Dentry
dentry_or none = null
dentry_or (some d) = d

module _ (B : RbApi ℕ MountParams) (text : ℕ → Option (List ℕ)) (dentry : ℕ → Option Dentry) where
  -- what `entry_handler` stores
  abbrev pub captured : Ptr → Bytes → Regs → MountParams
  captured p garbage regs =
      let path = dentry_or (dentry (pt_regs_params regs 1)) in
      record {
        addr = p;
        dev_name = at_most 256 (text_or (text (pt_regs_params regs 0)));
        dir_name = read_text 256 (build_path path (garbage, 0)).0 0;
        fs_type = at_most 64 (text_or (text (pt_regs_params regs 2)));
        flags = pt_regs_params regs 3;
      }

  unfoldable pub handle : Event → State → Run State Ret
  unfolding entry_handler ret_handler
  handle (enter p e garbage ri regs) s =
      entry_handler B text dentry (some p) (some e) true garbage ri (some regs) s
  handle (leave ri regs) s = ret_handler B ri (some regs) s

  unfoldable pub handle_all : List Event → State → Run State (Unit {0})
  unfolding handle
  handle_all [] s = done tt s
  handle_all (e ∷ es) s = (handle e >> handle_all es) s

  -- The three pointers can be read, and the texts leave room for their terminators.
  abbrev Readable : Ptr → Bytes → Regs → Type 0
  Readable p garbage regs =
      (dev : List ℕ) × (text (pt_regs_params regs 0) ≡ some dev)
      × (path : Dentry) × (dentry (pt_regs_params regs 1) ≡ some path)
      × (type : List ℕ) × (text (pt_regs_params regs 2) ≡ some type)
      × (terminated (captured p garbage regs) ≡ true)

  abbrev Unused : Event → State → Type 0
  Unused (enter p e garbage ri regs) s =
      (s.params p ≡ false) × (s.pool.live e ≡ false) × (ri ≢ 0) × Readable p garbage regs
  Unused (leave ri regs) s = Unit

  -- `kmalloc` returns memory that is not in use, an instance is not at address 0, and what a call
  -- points to can be read and fits.
  unfoldable pub Allocates : List Event → State → Type 0
  unfolding handle
  Allocates [] s = Unit
  Allocates (e ∷ es) s = Unused e s × Returns (λ _ t. Allocates es t) (handle e s)

  -- The parameters that are waiting after an event, and what it reports.
  abbrev pub waiting : Event → Map → Map
  waiting (enter p e garbage ri regs) m = kept m ri (captured p garbage regs) (m ri)
  waiting (leave ri regs) m = drop_key m ri

  abbrev pub reported : Event → Map → List MountParams
  reported (enter p e garbage ri regs) m = []
  reported (leave ri regs) m = shown (m ri)

  abbrev pub reports : List Event → Map → List MountParams
  reports [] m = []
  reports (e ∷ es) m = reported e m ++ reports es (waiting e m)

  abbrev Handled : Event → Map → State → Ret → State → Type 0
  Handled e m s r s' =
      (r ≡ val 0) × IsPool s' (waiting e m) × (s'.printed ≡ s.printed ++ reported e m)
