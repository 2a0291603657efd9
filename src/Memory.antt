-- ===== src/Memory.antt =====
-- Byte memory: the object that a pointer points into together with what lies behind it, and the
-- C functions that move bytes (`memcpy`, `memset`, a store of a run of bytes).
pub mod Laws
use learn_k.Base.{
  ℕ, zero, suc, ◌+◌, ◌-◌, Bool, ◌&&◌, List, [], ◌∷◌, ltb, leb, ◌==◌, if◌then◌else◌, length, get_or,
}

-- `m i` is the byte at `m + i`, also past the end of the object, so a theorem can say that nothing
-- behind the object changes.
abbrev pub Bytes : Type 0
Bytes = ℕ → ℕ

abbrev pub within : ℕ → ℕ → ℕ → Bool
within lo n i = leb lo i && ltb i (lo + n)

-- `m[p] = v`
unfoldable pub store : Bytes → ℕ → ℕ → Bytes
store m p v i = if i == p then v else m i

-- the bytes `bs` put at `m + p`
unfoldable pub store_all : Bytes → ℕ → List ℕ → Bytes
store_all m p bs i = if within p (length bs) i then get_or bs (i - p) 0 else m i

-- The `n` bytes at `m + p`.
unfoldable pub slice : Bytes → ℕ → ℕ → List ℕ
slice m p zero = []
slice m p (suc n) = m p ∷ slice m (p + 1) n

-- `memcpy(m + dst, m + src, n)` within one object, a byte at a time from the lowest address up.
-- The C standard leaves an overlap undefined; x86 copies in this order.
unfoldable pub memcpy_within : Bytes → (dst src n : ℕ) → Bytes
memcpy_within m dst src zero = m
memcpy_within m dst src (suc n) = memcpy_within (store m dst (m src)) (dst + 1) (src + 1) n

-- `memcpy(to + dst, from + src, n)` between two objects.
unfoldable pub memcpy : Bytes → ℕ → Bytes → ℕ → ℕ → Bytes
memcpy to dst from src n i = if within dst n i then from (src + (i - dst)) else to i

-- `memset(m + p, v, n)`
unfoldable pub memset : Bytes → ℕ → ℕ → ℕ → Bytes
memset m p v n i = if within p n i then v else m i
