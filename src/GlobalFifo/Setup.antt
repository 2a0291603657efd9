-- ===== src/GlobalFifo/Setup.antt =====
-- `hello_setup_cdev`, `hello_init` and `hello_exit` of src/globalfifo/main.c: what the module holds.
use learn_k.Base.{
  ℕ, Bool, true, false, Option, none, some, ◌==◌, if◌then◌else◌, ◌≡◌, refl, ◌⊎◌, inl, inr,
  Bool-cases,
}
use learn_k.Base.Int.{ℤ, pos, ltb_ℤ}
use learn_k.Cdev.Setup.{Answers, succeeded, enomem}

-- `hello_major`, the device number that is registered, whether `hello_devp` is allocated, whether
-- its `cdev` is added, so that processes can open it, and whether its mutex and its two wait queues
-- are initialised.
pub record Module : Type 0 where
  pub major : ℕ
  pub region : Option ℕ
  pub allocated : Bool
  pub added : Bool
  pub mutex_ready : Bool
  pub r_wait_ready : Bool
  pub w_wait_ready : Bool

-- A failure is printed and goes unnoticed.
unfoldable pub hello_setup_cdev : Answers → Module → Module
hello_setup_cdev a m = record m { added = succeeded a.cdev_add }

-- the first part, up to `if (ret < 0)`
unfoldable pub register_region : Answers → Module → Module
register_region a m =
    let major = if m.major == 0 then a.picked else m.major in
    record m { major = major; region = if ltb_ℤ a.register (pos 0) then none else some major }

-- `mutex_init` and the two `init_waitqueue_head`
unfoldable pub init_locks : Module → Module
init_locks m = record m { mutex_ready = true; r_wait_ready = true; w_wait_ready = true }

-- The result, the state while the `cdev` is being added, if it gets that far, and the last state.
unfoldable pub hello_init : Answers → Module → ℤ × Option Module × Module
unfolding hello_setup_cdev register_region init_locks
hello_init a m =
    let r = register_region a m in
    let early = hello_setup_cdev a (record r { allocated = true }) in
    if ltb_ℤ a.register (pos 0)
    then (a.register, none, r)
    else if a.kzalloc
    then (pos 0, some early, init_locks early)
    else (enomem, none, record r { region = none })

-- The memory with the locks is freed.
unfoldable pub hello_exit : Module → Module
hello_exit m = record m {
  added = false;
  allocated = false;
  region = none;
  mutex_ready = false;
  r_wait_ready = false;
  w_wait_ready = false;
}

-- before the module is loaded
abbrev pub unloaded : ℕ → Module
unloaded major = record {
  major = major;
  region = none;
  allocated = false;
  added = false;
  mutex_ready = false;
  r_wait_ready = false;
  w_wait_ready = false;
}

-- holds no device number and no memory
abbrev pub IsClean : Module → Type 0
IsClean m = (m.region ≡ none) × (m.allocated ≡ false) × (m.added ≡ false)

-- The device can be opened, as far as `cdev_add` succeeded, before its mutex is initialised.
abbrev pub Exposed : Answers → Option Module → Type 0
Exposed a none = ⊥
Exposed a (some m) = (m.added ≡ succeeded a.cdev_add) × (m.mutex_ready ≡ false)

pub record IsLoaded (a : Answers) (out : ℤ × Option Module × Module) : Type 0 where
  pub status : out.0 ≡ pos 0
  pub exposed : Exposed a out.1
  pub region : out.2.region ≡ some out.2.major
  pub allocated : out.2.allocated ≡ true
  pub locks : (out.2.mutex_ready ≡ true) × (out.2.r_wait_ready ≡ true) × (out.2.w_wait_ready ≡ true)
  pub clean : IsClean (hello_exit out.2)

-- Whatever the kernel answers, `hello_init` either returns 0, with the device number registered, the
-- device allocated and its locks initialised, and `hello_exit` then gives back all; or it returns a
-- negative code and holds nothing. In the first case the device was added before its mutex was
-- initialised.
pub hello_init-IsLoaded :
    (a : Answers) (major : ℕ)
    → IsLoaded a (hello_init a (unloaded major))
      ⊎ ((ltb_ℤ (hello_init a (unloaded major)).0 (pos 0) ≡ true)
          × IsClean (hello_init a (unloaded major)).2)
unfolding hello_init hello_exit hello_setup_cdev register_region init_locks
hello_init-IsLoaded a major = elim (Bool-cases (ltb_ℤ a.register (pos 0))) [
  | inl refused ↦ rw refused (inr (refused, (refl, refl, refl)))
  | inr registered ↦ elim (Bool-cases a.kzalloc) [
    | inl memory ↦
        rw (registered, memory)
          (inl (record {
            status = refl;
            exposed = (refl, refl);
            region = refl;
            allocated = refl;
            locks = (refl, refl, refl);
            clean = (refl, refl, refl);
          }))
    | inr full ↦ rw (registered, full) (inr (refl, (refl, refl, refl)))
  ]
]
