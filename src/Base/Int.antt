-- ===== src/Base/Int.antt =====
-- Signed integers over the native numbers, and the C conversions between the signed and unsigned
-- 32-bit and 64-bit types of the x86-64 ABI.
use Prim.Native.Nat.{ℕ, suc, ◌+◌, ◌-◌, ◌%◌, ◌^◌, ◌≤◌}
use mathlib.Core.Bool.{Bool, false}
use learn_k.Base.Tests.{ltb, leb, ◌==◌, if◌then◌else◌}

-- `negsuc n` is -(n + 1).
pub data ℤ : Type 0 where
  pos : ℕ → ℤ
  negsuc : ℕ → ℤ

abbrev pub pos_part : ℤ → ℕ
pos_part (pos n) = n
pos_part (negsuc n) = 0

abbrev pub neg_part : ℤ → ℕ
neg_part (pos n) = 0
neg_part (negsuc n) = suc n

abbrev pub sub_ℕ : ℕ → ℕ → ℤ
sub_ℕ a b = if leb b a then pos (a - b) else negsuc (b - a - 1)

infixl 65 ◌+ℤ◌
infix 50 ◌≤ℤ◌
unfoldable pub ◌+ℤ◌ : ℤ → ℤ → ℤ
a +ℤ b = sub_ℕ (pos_part a + pos_part b) (neg_part a + neg_part b)

abbrev pub ◌≤ℤ◌ : ℤ → ℤ → Type 0
a ≤ℤ b = pos_part a + neg_part b ≤ pos_part b + neg_part a

abbrev pub ltb_ℤ : ℤ → ℤ → Bool
ltb_ℤ a b = ltb (pos_part a + neg_part b) (pos_part b + neg_part a)

abbrev pub eqb_ℤ : ℤ → ℤ → Bool
eqb_ℤ (pos a) (pos b) = a == b
eqb_ℤ (negsuc a) (negsuc b) = a == b
eqb_ℤ a b = false

-- The bit pattern of an integer in a w-bit type.
abbrev pub to_word : ℕ → ℤ → ℕ
to_word m (pos n) = n % m
to_word m (negsuc n) = m - 1 - n % m

-- `(unsigned int) x`
abbrev pub u32 : ℤ → ℕ
u32 = to_word (2 ^ 32)

-- `(unsigned long) x`
abbrev pub u64 : ℤ → ℕ
u64 = to_word (2 ^ 64)

-- the `long` with a given bit pattern
abbrev pub s64 : ℕ → ℤ
s64 w = if ltb w (2 ^ 63) then pos w else negsuc (2 ^ 64 - w - 1)

-- the `int` with a given bit pattern
abbrev pub s32 : ℕ → ℤ
s32 w = if ltb w (2 ^ 31) then pos w else negsuc (2 ^ 32 - w - 1)

-- `a + b` in a 64-bit signed type (the kernel is built with wrap-around on overflow).
abbrev pub add_s64 : ℤ → ℤ → ℤ
add_s64 a b = s64 ((u64 a + u64 b) % 2 ^ 64)
