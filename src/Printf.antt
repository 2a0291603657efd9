-- ===== src/Printf.antt =====
-- The kernel's `snprintf`, into a buffer of `PATH_MAX` bytes, and its `%d`.
pub mod Decimal
use learn_k.Base.{
  ℕ, zero, suc, ◌+◌, ◌-◌, ◌≤◌, ◌<◌, ◌≡◌, refl, ◌∙◌, Bool, false, Option, none, some, List, [], ◌∷◌,
  ◌++◌, arith, ltb, ◌==◌, if◌then◌else◌, length, length-append, get_or,
}
use learn_k.Memory.{Bytes, store, store_all}
use learn_k.Strings.{at_most}
use learn_k.Strings.Join.{Text, at_most_all, get_or-append}

abbrev pub path_max : ℕ
path_max = 4096

-- `snprintf(buffer + at, path_max - at, ...)` with the text `bs` for the format: the bytes and the
-- result. The kernel refuses a size above `INT_MAX`, which a negative difference becomes.
unfoldable pub snprintf : Bytes → ℕ → List ℕ → Bytes × ℕ
snprintf m at bs = if ltb path_max at then (m, 0) else if at == path_max then (m, length bs) else (
  store (store_all m at (at_most (path_max - at - 1) bs))
      (at + length (at_most (path_max - at - 1) bs)) 0,
  length bs,
)

-- The buffer holds the bytes `bs`, and `offset` is behind them.
pub record Wrote (bs : List ℕ) (out : Bytes × ℕ) : Type 0 where
  pub offset : out.1 ≡ length bs
  pub bytes : (i : ℕ) → i < length bs → out.0 i ≡ get_or bs i 0

-- What it holds once `bs` is printed: its bytes, and a terminator unless it is empty.
pub record Prints (bs : List ℕ) (out : Bytes × ℕ) : Type 0 where
  pub wrote : Wrote bs out
  pub ends : 0 < length bs → out.0 (length bs) ≡ 0

length-at_most : (n : ℕ) (bs : List ℕ) → length (at_most n bs) ≤ n
length-at_most zero bs = omega arith
length-at_most (suc n) [] = omega arith
length-at_most (suc n) (b ∷ bs) = omega (arith, length-at_most n bs)

-- `out.1 += snprintf(out.0 + out.1, ...)`
abbrev pub print_at : Bytes × ℕ → List ℕ → Bytes × ℕ
print_at (m, at) bs = let (m', n) = snprintf m at bs in (m', at + n)

pub snprintf-Prints :
    (xs ys : List ℕ) (out : Bytes × ℕ)
    → Wrote xs out
    → length xs + length ys < path_max
    → Prints (xs ++ ys) (print_at out ys)
unfolding snprintf store store_all
snprintf-Prints xs ys (m, at) p h =
    rw (p.offset, sizes, inside, at_most_all (path_max - length xs - 1) ys (omega arith))
      (record {
        wrote = record {
          offset = omega (arith, length-append xs ys);
          bytes = λ i j. ground (arith, p.bytes i, get_or-append xs ys i, length-append xs ys);
        };
        ends = λ _. ground (arith, length-append xs ys);
      })
  where
    sizes : ltb path_max (length xs) ≡ false
    sizes = ground arith

    inside : (length xs == path_max) ≡ false
    inside = ground arith

-- A byte stored behind.
pub Wrote-store :
    (xs : List ℕ) (c : ℕ) (m : Bytes) (at : ℕ)
    → Wrote xs (m, at)
    → Wrote (xs ++ (c ∷ [])) (store m at c, at + 1)
unfolding store
Wrote-store xs c m at w = record {
  offset = omega (arith, w.offset, length-append xs (c ∷ []));
  bytes = λ i j.
      ground (arith, w.offset, w.bytes i, get_or-append xs (c ∷ []) i, length-append xs (c ∷ []));
}

pub Wrote-nil : (m : Bytes) → Wrote [] (m, 0)
Wrote-nil m = record { offset = refl; bytes = λ i j. absurd (omega (arith, j)) }

-- A terminator stored behind.
pub Wrote-ends :
    (bs : List ℕ) (m : Bytes) (at : ℕ) → Wrote bs (m, at) → Prints bs (store m at 0, length bs)
unfolding store
Wrote-ends bs m at w = record {
  wrote = record { offset = refl; bytes = λ i j. ground (arith, w.offset, w.bytes i) };
  ends = λ _. ground (arith, w.offset);
}

-- The bytes up to a terminator, at most `n`.
unfoldable pub read_text : ℕ → Bytes → ℕ → List ℕ
read_text zero m i = []
read_text (suc n) m i = if m i == 0 then [] else m i ∷ read_text n m (i + 1)

read_text-at :
    (n : ℕ) (bs : List ℕ) (m : Bytes) (at : ℕ)
    → ((i : ℕ) → i < length bs → m (at + i) ≡ get_or bs i 0)
    → m (at + length bs) ≡ 0
    → Text bs
    → length bs < n
    → read_text n m at ≡ bs
unfolding read_text
read_text-at zero bs m at w e t h = absurd (omega arith)
read_text-at (suc n) [] m at w e t h = ground (arith, e)
read_text-at (suc n) (b ∷ bs) m at w e t h = ground (
  arith,
  w 0,
  t 0,
  read_text-at n bs m (at + 1) (λ i j. ground (arith, w (suc i))) (ground (arith, e))
      (λ i j. t (suc i) (omega (arith, j))) (omega arith),
)

pub read_text-Prints :
    (n : ℕ) (bs : List ℕ) (out : Bytes × ℕ)
    → Prints bs out
    → 0 < length bs
    → Text bs
    → length bs < n
    → read_text n out.0 0 ≡ bs
read_text-Prints n bs out p some_in t h =
    read_text-at n bs out.0 0 (λ i j. ground (arith, p.wrote.bytes i))
      (ground (arith, p.ends some_in)) t h

-- No print goes past the buffer.
pub snprintf-within :
    (m : Bytes) (at : ℕ) (bs : List ℕ) (i : ℕ) → path_max ≤ i → (snprintf m at bs).0 i ≡ m i
unfolding snprintf store store_all
snprintf-within m at bs i h = ground (arith, length-at_most (path_max - at - 1) bs)
