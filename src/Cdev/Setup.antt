-- ===== src/Cdev/Setup.antt =====
-- `hello_setup_cdev`, `hello_init` and `hello_exit` of src/cdev/main.c: what the module holds.
use learn_k.Base.{
  ℕ, Bool, true, false, Option, none, some, ◌==◌, if◌then◌else◌, ◌≡◌, refl, Bool-cases, inl, inr,
  ◌⊎◌,
}
use learn_k.Base.Int.{ℤ, pos, negsuc, ltb_ℤ}

-- `hello_major`, the device number that is registered, whether `hello_devp` is allocated, and
-- whether its `cdev` is added.
pub record Module : Type 0 where
  pub major : ℕ
  pub region : Option ℕ
  pub allocated : Bool
  pub added : Bool

-- What the kernel answers: `register_chrdev_region` or `alloc_chrdev_region`, the major number that
-- the latter picks, `kzalloc`, and `cdev_add`.
pub record Answers : Type 0 where
  pub register : ℤ
  pub picked : ℕ
  pub kzalloc : Bool
  pub cdev_add : ℤ

-- `err == 0`
abbrev pub succeeded : ℤ → Bool
succeeded (pos n) = n == 0
succeeded (negsuc n) = false

-- A failure is printed and goes unnoticed.
unfoldable pub hello_setup_cdev : Answers → Module → Module
hello_setup_cdev a m = record m { added = succeeded a.cdev_add }

-- the first part, up to `if (ret < 0)`
unfoldable pub register_region : Answers → Module → Module
register_region a m =
    let major = if m.major == 0 then a.picked else m.major in
    record m { major = major; region = if ltb_ℤ a.register (pos 0) then none else some major }

-- `-ENOMEM`
abbrev pub enomem : ℤ
enomem = negsuc 11

unfoldable pub hello_init : Answers → Module → ℤ × Module
unfolding hello_setup_cdev register_region
hello_init a m =
    let r = register_region a m in
    if ltb_ℤ a.register (pos 0)
    then (a.register, r)
    else if a.kzalloc
    then (pos 0, hello_setup_cdev a (record r { allocated = true }))
    else (enomem, record r { region = none })

unfoldable pub hello_exit : Module → Module
hello_exit m = record m { added = false; allocated = false; region = none }

-- before the module is loaded
abbrev pub unloaded : ℕ → Module
unloaded major = record { major = major; region = none; allocated = false; added = false }

-- holds no device number and no memory
abbrev pub IsClean : Module → Type 0
IsClean m = (m.region ≡ none) × (m.allocated ≡ false) × (m.added ≡ false)

abbrev pub InitDone : Answers → ℤ × Module → Type 0
InitDone a out =
    ((out.0 ≡ pos 0)
      × (out.1.region ≡ some out.1.major)
      × (out.1.allocated ≡ true)
      × IsClean (hello_exit out.1))
    ⊎ ((ltb_ℤ out.0 (pos 0) ≡ true) × IsClean out.1)

-- Whatever the kernel answers, `hello_init` either returns 0, with the device number registered and
-- the device allocated, and `hello_exit` then gives back all; or it returns a negative code and
-- holds nothing.
pub hello_init_lem : (a : Answers) (major : ℕ) → InitDone a (hello_init a (unloaded major))
unfolding hello_init hello_exit hello_setup_cdev register_region
hello_init_lem a major = elim (Bool-cases (ltb_ℤ a.register (pos 0))) [
  | inl refused ↦ rw refused (inr (refused, (refl, refl, refl)))
  | inr registered ↦ elim (Bool-cases a.kzalloc) [
    | inl memory ↦ rw (registered, memory) (inl (refl, refl, refl, (refl, refl, refl)))
    | inr full ↦ rw (registered, full) (inr (refl, (refl, refl, refl)))
  ]
]
