-- ===== src/Cdev/Position.antt =====
-- The file position: `hello_llseek` against exact integer arithmetic.
use learn_k.Base.{ℕ, ◌+◌, ◌-◌, ◌*◌, ◌^◌, ◌≤◌, ◌≡◌, Option, none, some, arith, ◌==◌, if◌then◌else◌}
use learn_k.Base.Int.{ℤ, pos, negsuc, pos_part, ◌+ℤ◌, ◌≤ℤ◌, ltb_ℤ}
use learn_k.Kernel.{einval, Ret, val, err}
use learn_k.Cdev.Seek.{hellodev_size, hello_llseek}

-- where a seek should go: `SEEK_SET`, `SEEK_CUR`, and nothing else
abbrev pub target : ℤ → ℤ → ℕ → Option ℤ
target f_pos offset orig =
    if orig == 0 then some offset else if orig == 1 then some (f_pos +ℤ offset) else none

-- A position within the device is taken, anything else is refused.
abbrev pub move_to : ℤ → Option ℤ → Ret × ℤ
move_to f_pos none = (err einval, f_pos)
move_to f_pos (some z) =
    if ltb_ℤ z (pos 0)
    then (err einval, f_pos)
    else if ltb_ℤ (pos hellodev_size) z
    then (err einval, f_pos)
    else (val (pos_part z), z)

-- For every position within the device and every 64-bit offset, which for `SEEK_SET` is below
-- 2^32, a seek moves to the exact target if that lies within the device, and is refused with no
-- effect otherwise.
pub hello_llseek_exact :
    (p : ℕ) (offset : ℤ) (orig : ℕ)
    → p ≤ hellodev_size
    → negsuc (2 ^ 63 - 1) ≤ℤ offset
    → offset ≤ℤ pos (2 ^ 63 - 1)
    → (orig ≡ 0 → offset ≤ℤ pos (2 ^ 32 - 1))
    → hello_llseek (pos p) offset orig ≡ move_to (pos p) (target (pos p) offset orig)
unfolding hello_llseek ◌+ℤ◌
hello_llseek_exact p (pos n) orig hp lo hi small = ground arith
hello_llseek_exact p (negsuc n) orig hp lo hi small = ground arith

-- `SEEK_SET` looks at the low 32 bits of the offset alone: an offset far behind the device is
-- accepted and moves to its remainder.
pub hello_llseek_truncates :
    (f_pos : ℤ) (k r : ℕ)
    → r ≤ hellodev_size
    → hello_llseek f_pos (pos (k * 2 ^ 32 + r)) 0 ≡ (val r, pos r)
unfolding hello_llseek
hello_llseek_truncates f_pos k r h = ground arith

abbrev pub InRange : ℤ → Type 0
InRange z = (pos 0 ≤ℤ z) × (z ≤ℤ pos hellodev_size)

-- No seek, whatever its arguments, leaves the device.
pub hello_llseek-InRange :
    (f_pos offset : ℤ) (orig : ℕ) → InRange f_pos → InRange (hello_llseek f_pos offset orig).1
unfolding hello_llseek
hello_llseek-InRange f_pos offset orig h = ground arith
