-- ===== src/GlobalFifo/Seek.antt =====
-- `hello_llseek`, `hello_open` and `hello_release` of src/globalfifo/main.c.
use learn_k.Base.{ℕ, ltb, ◌==◌, arith, if◌then◌else◌}
use learn_k.Base.Int.{ℤ, pos, u32, u64, add_s64, ltb_ℤ}
use learn_k.Kernel.{einval, Ret, val, err}
use learn_k.Cdev.Position.{InRange}
use learn_k.GlobalFifo.Machine.{hellodev_size}

-- What it returns and the new `f_pos`, which no other function looks at.
unfoldable pub hello_llseek : (f_pos offset : ℤ) → ℕ → Ret × ℤ
hello_llseek f_pos offset orig =
    if orig == 0
    then (if ltb_ℤ offset (pos 0)
        then (err einval, f_pos)
        else if ltb hellodev_size (u32 offset)
        then (err einval, f_pos)
        else (val (u32 offset), pos (u32 offset)))
    else if orig == 1
    then (let sum = add_s64 f_pos offset in
        if ltb_ℤ (pos hellodev_size) sum
        then (err einval, f_pos)
        else if ltb_ℤ sum (pos 0)
        then (err einval, f_pos)
        else (val (u64 sum), sum))
    else (err einval, f_pos)

-- What they return; `hello_open` stores the device in the file.
unfoldable pub hello_open : Ret
hello_open = val 0

unfoldable pub hello_release : Ret
hello_release = val 0

-- No seek leaves the device.
seek-InRange :
    (f_pos offset : ℤ) (orig : ℕ) → InRange f_pos → InRange (hello_llseek f_pos offset orig).1
unfolding hello_llseek
seek-InRange f_pos offset orig h = ground arith
