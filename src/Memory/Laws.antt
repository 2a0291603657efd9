-- ===== src/Memory/Laws.antt =====
-- The laws of byte memory.
use learn_k.Base.{
  ℕ, zero, suc, ◌+◌, ◌-◌, ◌≤◌, ◌<◌, ◌≡◌, refl, ap, List, [], ◌∷◌, ◌++◌, arith, ◌⊎◌, if◌then◌else◌,
  length, get_or, take, drop,
}
use learn_k.Memory.{Bytes, within, store, store_all, slice, memcpy_within}

pub length-slice : (m : Bytes) (p n : ℕ) → length (slice m p n) ≡ n
unfolding slice
length-slice m p zero = refl
length-slice m p (suc n) = ap suc (length-slice m (p + 1) n)

-- Slices are equal when the bytes are.
pub slice_ext :
    (m w : Bytes) (p q n : ℕ)
    → ((i : ℕ) → i < n → m (p + i) ≡ w (q + i))
    → slice m p n ≡ slice w q n
unfolding slice
slice_ext m w p q zero h = refl
slice_ext m w p q (suc n) h =
    ground (arith, h 0, slice_ext m w (p + 1) (q + 1) n (λ i hi. ground (arith, h (suc i))))

-- A slice is a list when its bytes are the items.
pub slice_eq_list :
    (m : Bytes) (p : ℕ) (bs : List ℕ)
    → ((i : ℕ) → i < length bs → m (p + i) ≡ get_or bs i 0)
    → slice m p (length bs) ≡ bs
unfolding slice
slice_eq_list m p [] h = refl
slice_eq_list m p (b ∷ bs) h =
    ground (arith, h 0, slice_eq_list m (p + 1) bs (λ i hi. ground (arith, h (suc i))))

pub slice-append : (m : Bytes) (p a b : ℕ) → slice m p (a + b) ≡ slice m p a ++ slice m (p + a) b
unfolding slice
slice-append m p zero b = ground arith
slice-append m p (suc a) b =
    let e : suc a + b ≡ suc (a + b) = omega arith in
    rw e (ground (arith, slice-append m (p + 1) a b))

pub take-slice : (m : Bytes) (p n k : ℕ) → k ≤ n → take k (slice m p n) ≡ slice m p k
unfolding slice
take-slice m p n zero h = refl
take-slice m p zero (suc k) h = absurd (omega arith)
take-slice m p (suc n) (suc k) h = ground (arith, take-slice m (p + 1) n k)

pub drop-slice : (m : Bytes) (p n k : ℕ) → k ≤ n → drop k (slice m p n) ≡ slice m (p + k) (n - k)
unfolding slice
drop-slice m p n zero h = ground arith
drop-slice m p zero (suc k) h = absurd (omega arith)
drop-slice m p (suc n) (suc k) h = ground (arith, drop-slice m (p + 1) n k)

pub get_or-slice : (m : Bytes) (p n i : ℕ) → i < n → get_or (slice m p n) i 0 ≡ m (p + i)
unfolding slice
get_or-slice m p zero i h = absurd (omega arith)
get_or-slice m p (suc n) zero h = ground arith
get_or-slice m p (suc n) (suc i) h = ground (arith, get_or-slice m (p + 1) n i)

-- Bytes just stored read back.
pub slice-store_all :
    (m : Bytes) (p : ℕ) (bs : List ℕ) → slice (store_all m p bs) p (length bs) ≡ bs
unfolding store_all
slice-store_all m p bs = slice_eq_list _ p bs (λ i h. ground arith)

-- Downwards, also where the regions overlap, the ascending copy moves the block whole.
pub memcpy_within_lem :
    (m : Bytes) (dst src n i : ℕ)
    → dst ≤ src
    → memcpy_within m dst src n i ≡ (if within dst n i then m (src + (i - dst)) else m i)
unfolding memcpy_within store
memcpy_within_lem m dst src zero i h = ground arith
memcpy_within_lem m dst src (suc n) i h =
    ground (arith, memcpy_within_lem (store m dst (m src)) (dst + 1) (src + 1) n i)

-- The same two facts for a run whose length is known by an equation.
pub slice-store_all_of_length :
    (m : Bytes) (p n : ℕ) (bs : List ℕ) → length bs ≡ n → slice (store_all m p bs) p n ≡ bs
slice-store_all_of_length m p n bs e = rw (← e) (slice-store_all m p bs)

pub store_all_outside :
    (m : Bytes) (p n : ℕ) (bs : List ℕ)
    → length bs ≡ n
    → (i : ℕ) → (i < p) ⊎ (p + n ≤ i)
    → store_all m p bs i ≡ m i
unfolding store_all
store_all_outside m p n bs e i h = ground arith
