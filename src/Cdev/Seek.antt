-- ===== src/Cdev/Seek.antt =====
-- `hello_llseek` of src/cdev/main.c.
use learn_k.Base.{ℕ, ltb, ◌==◌, if◌then◌else◌}
use learn_k.Base.Int.{ℤ, pos, u32, u64, add_s64, ltb_ℤ}
use learn_k.Kernel.{einval, Ret, val, err}

-- `HELLODEV_SIZE`
abbrev pub hellodev_size : ℕ
hellodev_size = 0x1000

-- What it returns and the new `f_pos`. A `loff_t` that is returned here is never negative but as
-- an error, so its bit pattern is its value.
unfoldable pub hello_llseek : (f_pos offset : ℤ) → ℕ → Ret × ℤ
hello_llseek f_pos offset orig =
    if orig == 0
    then (if ltb_ℤ offset (pos 0)
        then (err einval, f_pos)
        else if ltb hellodev_size (u32 offset)
        then (err einval, f_pos)
        else (val (u32 offset), pos (u32 offset)))
    else if orig == 1
    then (let sum = add_s64 f_pos offset in
        if ltb_ℤ (pos hellodev_size) sum
        then (err einval, f_pos)
        else if ltb_ℤ sum (pos 0)
        then (err einval, f_pos)
        else (val (u64 sum), sum))
    else (err einval, f_pos)
