-- ===== src/Strings/Search.antt =====
-- Searches in a string, and its parts.
use native.Mathlib.Decide.{dec_lt}
use learn_k.Base.{
  subst, ℕ, zero, suc, ◌+◌, ◌-◌, ◌≤◌, ◌<◌, ◌≡◌, refl, ap, sym, ◌∙◌, Bool, true, false, ◌&&◌, none,
  some, List, [], ◌∷◌, arith, ltb, leb, ◌==◌, if◌then◌else◌, length, get_or, Bool-cases, inl, inr,
  take, drop, ◌^◌, ◌%◌,
}
use learn_k.Base.Int.{ℤ, pos, negsuc}
use learn_k.Memory.{Bytes, slice}
use learn_k.Memory.Laws.{slice_eq_list, take-slice, drop-slice}
use learn_k.Strings.Join.{int_len-text}
use learn_k.Strings.{
  StringView, strncmp_eq, index_loop, string_index, last_index_loop, string_last_index,
  string_substring, string_char, string_len,
}
use learn_k.Strings.Join.{IsString}

-- `bs` stands at `p`.
abbrev pub At : Bytes → ℕ → List ℕ → Type 0
At m p bs = slice m p (length bs) ≡ bs

-- A test and what it decides.
abbrev pub Decides : Bool → Type 0 → Type 0
Decides true P = P
Decides false P = ¬ P

head_of : {x y : ℕ} {xs ys : List ℕ} → x ∷ xs ≡ y ∷ ys → x ≡ y
head_of {x} e = ap (λ l. get_or l 0 x) e

tail_of : {x y : ℕ} {xs ys : List ℕ} → x ∷ xs ≡ y ∷ ys → xs ≡ ys
tail_of e = ap (drop 1) e

cons-At :
    (m : Bytes) (p b : ℕ) (bs : List ℕ) (t : Bool)
    → Decides t (At m (p + 1) bs)
    → m p ≡ b
    → Decides t (At m p (b ∷ bs))
unfolding slice
cons-At m p b bs true d e = ground (arith, d, e)
cons-At m p b bs false d e = λ f. d (tail_of f)

pub strncmp_eq_lem : (m : Bytes) (p : ℕ) (bs : List ℕ) → Decides (strncmp_eq m p bs) (At m p bs)
unfolding strncmp_eq slice
strncmp_eq_lem m p [] = refl
strncmp_eq_lem m p (b ∷ bs) =
    let rest = cons-At m p b bs (strncmp_eq m (p + 1) bs) (strncmp_eq_lem m (p + 1) bs) in
    elim (Bool-cases (m p == b)) [
      | inl same ↦ rw same (rest (ground arith))
      | inr other ↦ rw other (λ e. absurd (ground (arith, head_of e)))
    ]

-- The answer of a search among the places from `lo` below `hi`, the first or the last.
abbrev pub FirstOf : Bytes → List ℕ → (lo hi : ℕ) → ℤ → Type 0
FirstOf m bs lo hi (pos i) =
    (lo ≤ i) × (i < hi) × At m i bs × ((j : ℕ) → lo ≤ j → j < i → ¬ At m j bs)
FirstOf m bs lo hi (negsuc _) = (j : ℕ) → lo ≤ j → j < hi → ¬ At m j bs

abbrev pub LastOf : Bytes → List ℕ → ℕ → ℤ → Type 0
LastOf m bs hi (pos i) = (i < hi) × At m i bs × ((j : ℕ) → i < j → j < hi → ¬ At m j bs)
LastOf m bs hi (negsuc _) = (j : ℕ) → j < hi → ¬ At m j bs

first_step :
    (m : Bytes) (bs : List ℕ) (i hi : ℕ) (t : Bool) (z : ℤ)
    → i < hi
    → Decides t (At m i bs)
    → FirstOf m bs (i + 1) hi z
    → FirstOf m bs i hi (if t then pos i else z)
first_step m bs i hi true z h d f = (omega arith, h, d, λ j a b. absurd (omega arith))
first_step m bs i hi false (pos k) h d f = (
  omega (arith, f.0),
  f.1,
  f.2,
  λ j a b at. elim (dec_lt i j) [
    | yes l ↦ f.3 j (omega arith) b at
    | no ge ↦ let e : j ≡ i = omega arith in d (subst (λ q. At m q bs) e at)
  ],
)
first_step m bs i hi false (negsuc k) h d f = λ j a b at. elim (dec_lt i j) [
  | yes l ↦ f j (omega arith) b at
  | no ge ↦ let e : j ≡ i = omega arith in d (subst (λ q. At m q bs) e at)
]

index_loop_lem :
    (m : Bytes) (bs : List ℕ) (n i hi : ℕ) → i + n ≡ hi → FirstOf m bs i hi (index_loop m bs n i)
unfolding index_loop
index_loop_lem m bs zero i hi e = λ j a b. absurd (omega arith)
index_loop_lem m bs (suc n) i hi e =
    first_step m bs i hi (strncmp_eq m i bs) (index_loop m bs n (i + 1)) (omega arith)
      (strncmp_eq_lem m i bs) (index_loop_lem m bs n (i + 1) hi (omega arith))

last_step :
    (m : Bytes) (bs : List ℕ) (i : ℕ) (t : Bool) (z : ℤ)
    → Decides t (At m i bs)
    → LastOf m bs i z
    → LastOf m bs (suc i) (if t then pos i else z)
last_step m bs i true z d f = (omega arith, d, λ j a b. absurd (omega arith))
last_step m bs i false (pos k) d f = (
  omega (arith, f.0),
  f.1,
  λ j a b at. elim (dec_lt j i) [
    | yes l ↦ f.2 j a (omega arith) at
    | no ge ↦ let e : j ≡ i = omega arith in d (subst (λ q. At m q bs) e at)
  ],
)
last_step m bs i false (negsuc k) d f = λ j b at. elim (dec_lt j i) [
  | yes l ↦ f j (omega arith) at
  | no ge ↦ let e : j ≡ i = omega arith in d (subst (λ q. At m q bs) e at)
]

last_index_loop_lem : (m : Bytes) (bs : List ℕ) (n : ℕ) → LastOf m bs n (last_index_loop m bs n)
unfolding last_index_loop
last_index_loop_lem m bs zero = λ j b. absurd (omega arith)
last_index_loop_lem m bs (suc i) =
    last_step m bs i (strncmp_eq m i bs) (last_index_loop m bs i) (strncmp_eq_lem m i bs)
      (last_index_loop_lem m bs i)

-- how many places there are for `bs`
abbrev pub places : StringView → List ℕ → ℕ
places s bs = if ltb s.len (length bs) then 0 else s.len - length bs + 1

-- `string_index` finds the first place within the string where a text below 2^32 bytes stands, and
-- is -1 if there is none.
pub string_index_lem :
    (s : StringView) (bs : List ℕ)
    → length bs < 2 ^ 32
    → FirstOf s.str bs 0 (places s bs) (string_index s bs)
unfolding string_index
string_index_lem s bs small =
    let (size, whole_text) = int_len-text bs small in
    rw (whole_text, size)
      (elim (Bool-cases (ltb s.len (length bs))) [
        | inl short ↦ rw short (λ j a b. absurd (omega arith))
        | inr long ↦ rw long (
            index_loop_lem s.str bs (s.len - length bs + 1) 0 (s.len - length bs + 1) (omega arith))
      ])

-- `string_last_index` finds the last.
pub string_last_index_lem :
    (s : StringView) (bs : List ℕ)
    → length bs < 2 ^ 32
    → LastOf s.str bs (places s bs) (string_last_index s bs)
unfolding string_last_index
string_last_index_lem s bs small =
    let (size, whole_text) = int_len-text bs small in
    rw (whole_text, size)
      (elim (Bool-cases (ltb s.len (length bs))) [
        | inl short ↦ rw short (λ j b. absurd (omega arith))
        | inr long ↦ rw long (last_index_loop_lem s.str bs (s.len - length bs + 1))
      ])

-- What `s` holds, as a slice.
IsString-slice : (s : StringView) (xs : List ℕ) → IsString s xs → slice s.str 0 (length xs) ≡ xs
IsString-slice s xs is = slice_eq_list s.str 0 xs (λ i h. ground (arith, is.bytes i))

-- `string_char`, where there is memory, is a copy of the whole text, as long as `string_len` says.
pub string_char_lem :
    (s : StringView) (xs : List ℕ)
    → IsString s xs
    → (string_char true s ≡ some xs) × (string_len s ≡ length xs)
unfolding string_char string_len
string_char_lem s xs is = (ground (arith, is.counts, IsString-slice s xs is), is.counts)

-- `string_substring`, where there is memory, is the part of the string from `start` up to `end` if
-- that is a part of it with at least one byte, and else nothing.
pub string_substring_lem :
    (s : StringView) (xs : List ℕ) (a b : ℕ)
    → IsString s xs
    → b < 2 ^ 31
    → string_substring true s (pos a) (pos b)
      ≡ (if leb b (length xs) && ltb a b then some (take (b - a) (drop a xs)) else none)
unfolding string_substring
string_substring_lem s xs a b is small =
    let word : b % 2 ^ 32 ≡ b = omega arith in
    rw word (elim (Bool-cases (leb b (length xs) && ltb a b)) [
      | inl good ↦ ground (arith, is.counts, part good)
      | inr bad ↦ ground (arith, is.counts)
    ])
  where
    part : (leb b (length xs) && ltb a b) ≡ true → slice s.str a (b - a) ≡ take (b - a) (drop a xs)
    part good = sym (
        ap (λ l. take (b - a) (drop a l)) (sym (IsString-slice s xs is))
        ∙ ap (take (b - a)) (drop-slice s.str 0 (length xs) a (ground arith))
        ∙ take-slice s.str (0 + a) (length xs - a) (b - a) (ground arith)
        ∙ ap (λ q. slice s.str q (b - a)) (omega arith))
