-- ===== src/Strings/Join.antt =====
-- What a string buffer holds, and `string_new_cap` and `string_join`.
use learn_k.Base.{
  ℕ, zero, suc, ◌+◌, ◌-◌, ◌%◌, ◌^◌, ◌≤◌, ◌<◌, ◌≡◌, ◌≢◌, refl, ap, ◌∙◌, Bool, true, false, Option,
  none, some, List, [], ◌∷◌, ◌++◌, arith, ltb, leb, if◌then◌else◌, length, length-append, get_or,
  Bool-cases, Option-cases, subst, inl, inr,
}
use learn_k.Memory.{Bytes, store, store_all}
use learn_k.Kernel.{done, blocked, oops, ◌>>◌, Returns}
use learn_k.Strings.{
  StringView, string_new_cap, grow, krealloc, string_growup, strlen_from, at_most, strncat, int_len,
  append_to, string_join,
}
use learn_k.Strings.Growth.{Grown, grow_lem, grow_endless}

-- no terminator inside
abbrev pub Text : List ℕ → Type 0
Text xs = (i : ℕ) → i < length xs → get_or xs i 0 ≢ 0

-- The buffer holds `xs`, with the terminator inside its capacity.
pub record IsString (s : StringView) (xs : List ℕ) : Type 0 where
  pub counts : s.len ≡ length xs
  pub bytes : (i : ℕ) → i < length xs → s.str i ≡ get_or xs i 0
  pub ends : s.str (length xs) ≡ 0
  pub fits : length xs < s.cap
  pub text : Text xs

abbrev pub OnSome : {A : Type 0} → (A → Type 0) → Option A → Type 0
OnSome P none = ⊥
OnSome P (some a) = P a

pub get_or-append :
    (xs ys : List ℕ) (i : ℕ)
    → get_or (xs ++ ys) i 0
      ≡ (if ltb i (length xs) then get_or xs i 0 else get_or ys (i - length xs) 0)
get_or-append [] ys i = ground arith
get_or-append (x ∷ xs) ys zero = ground arith
get_or-append (x ∷ xs) ys (suc i) = ground (arith, get_or-append xs ys i)

pub at_most_all : (n : ℕ) (bs : List ℕ) → length bs ≤ n → at_most n bs ≡ bs
at_most_all zero [] h = refl
at_most_all zero (b ∷ bs) h = absurd (omega arith)
at_most_all (suc n) [] h = refl
at_most_all (suc n) (b ∷ bs) h = ap (λ r. b ∷ r) (at_most_all n bs (omega arith))

-- A text below 2^32 bytes has its own length.
pub int_len-text :
    (bs : List ℕ) → length bs < 2 ^ 32 → (int_len bs ≡ length bs) × (at_most (int_len bs) bs ≡ bs)
int_len-text bs h =
    let e : int_len bs ≡ length bs = omega arith in
    (e, rw e (at_most_all (length bs) bs (omega arith)))

pub strlen_from_lem :
    (fuel n : ℕ) (m : Bytes) (i : ℕ)
    → ((j : ℕ) → j < n → m (i + j) ≢ 0)
    → m (i + n) ≡ 0
    → n < fuel
    → strlen_from fuel m i ≡ some (i + n)
unfolding strlen_from
strlen_from_lem zero n m i inside ends f = absurd (omega arith)
strlen_from_lem (suc fuel) zero m i inside ends f = ground arith
strlen_from_lem (suc fuel) (suc n) m i inside ends f = ground (
  arith,
  inside 0,
  strlen_from_lem fuel n m (i + 1) (λ j h. ground (arith, inside (suc j))) (ground arith)
      (omega arith),
)

pub Text-cons : (b : ℕ) (bs : List ℕ) → b ≢ 0 → Text bs → Text (b ∷ bs)
Text-cons b bs n t zero h = n
Text-cons b bs n t (suc i) h = t i (omega (arith, h))

pub Text-append : (xs ys : List ℕ) → Text xs → Text ys → Text (xs ++ ys)
Text-append xs ys a b i h =
    ground (arith, get_or-append xs ys i, length-append xs ys, a i, b (i - length xs))

module _ (fuel : ℕ) (s : StringView) (xs ys : List ℕ) (is : IsString s xs) (text : Text ys)
    (enough : length xs < fuel) where
  append_to-eq :
      length xs + length ys < s.cap
      → append_to fuel ys s
        ≡ done tt (record {
          str =
              store
                (store (store_all s.str (length xs) ys) (length xs + length ys) 0)
                ((s.len + length ys) % 2 ^ 32)
                0;
          len = (s.len + length ys) % 2 ^ 32;
          cap = s.cap;
        })
  unfolding append_to strncat
  append_to-eq room =
      ground (arith, found, at_most_all (s.cap - s.len) ys (ground (arith, is.counts)))
    where
      found : strlen_from fuel s.str 0 ≡ some (length xs)
      found =
          strlen_from_lem fuel (length xs) s.str 0 (λ j h. ground (arith, is.bytes j, is.text j))
            (ground (arith, is.ends)) enough
          ∙ ap some (omega arith)

  append_to_lem :
      length xs + length ys < s.cap
      → length xs + length ys < 2 ^ 32
      → Returns (λ _ t. IsString t (xs ++ ys)) (append_to fuel ys s)
  unfolding store store_all
  append_to_lem room small = rw (append_to-eq room) (record {
    counts = ground (arith, is.counts, length-append xs ys);
    bytes =
        λ i h. ground (arith, is.counts, is.bytes i, get_or-append xs ys i, length-append xs ys);
    ends = ground (arith, is.counts, length-append xs ys);
    fits = ground (arith, length-append xs ys);
    text = Text-append xs ys is.text text;
  })

-- A larger buffer holds the same string.
IsString-krealloc :
    (garbage : Bytes) (s : StringView) (xs : List ℕ) (cap : ℕ)
    → IsString s xs
    → s.cap ≤ cap
    → IsString (record { str = krealloc garbage s.str s.cap; len = s.len; cap = cap }) xs
IsString-krealloc garbage s xs cap is larger = record {
  counts = is.counts;
  bytes = λ i h. ground (arith, is.bytes i, is.fits);
  ends = ground (arith, is.ends, is.fits);
  fits = ground (arith, is.fits);
  text = is.text;
}

module _ (fuel : ℕ) (garbage : Bytes) (s : StringView) (xs ys : List ℕ) (is : IsString s xs) where
  grown :
      length ys + length xs ≤ 4096
      → length ys + length xs + 1 < fuel
      → s.cap ≤ length xs + length ys
      → Text ys
      → (c : Option ℕ) → Grown (length xs + length ys) s.cap c
      → grow fuel (length xs + length ys) s.cap ≡ c
      → Returns
          (λ _ t. IsString t (xs ++ ys))
          ((string_growup fuel true garbage (length xs + length ys) >> append_to fuel ys) s)
  unfolding string_growup
  grown small f full text none g e = absurd g
  grown small f full text (some c) g e =
      let enough : leb s.cap (length xs + length ys) ≡ true = ground arith in
      rw (string_growup, e, enough)
        (append_to_lem fuel _ xs ys (IsString-krealloc garbage s xs c is (omega (arith, g.0))) text
          (omega arith) g.0 (omega arith))

  -- For a valid string and a text of nonzero bytes, of up to 4096 bytes together, with fuel for more
  -- than one turn a byte, and if `krealloc` succeeds, `string_join` ends and the string is then the
  -- one followed by the other, its terminator within the capacity.
  pub string_join_lem :
      length ys + length xs ≤ 4096
      → length ys + length xs + 1 < fuel
      → Text ys
      → Returns (λ _ t. IsString t (xs ++ ys)) (string_join fuel true garbage ys s)
  unfolding string_join
  string_join_lem small f text =
      let sum : (s.len + length ys) % 2 ^ 32 ≡ length xs + length ys = ground (arith, is.counts) in
      rw sum (elim (Bool-cases (ltb (length xs + length ys) s.cap)) [
        | inl fits ↦
            rw fits (append_to_lem fuel s xs ys is text (omega arith) (ground arith) (omega arith))
        | inr full ↦ rw full (
            grown small f (ground arith) text _
              (grow_lem fuel (length xs + length ys) s.cap (ground (arith, is.fits)) (omega arith)
                (omega arith) (ground arith))
              refl)
      ])

  -- If the text does not fit in the buffer and the two have 8192 bytes or more together, but fewer
  -- than 2^32, `string_join` does not end.
  pub string_join_endless :
      8192 ≤ length xs + length ys
      → length xs + length ys < 2 ^ 32
      → s.cap ≤ length xs + length ys
      → (r : Bool) → string_join fuel r garbage ys s ≡ blocked
  unfolding string_join string_growup
  string_join_endless large small full r =
      let sum : (s.len + length ys) % 2 ^ 32 ≡ length xs + length ys = ground (arith, is.counts) in
      let over : ltb (length xs + length ys) s.cap ≡ false = ground arith in
      rw (sum, over, string_growup, grow_endless fuel (length xs + length ys) s.cap large full) refl

string_growup-oops :
    (fuel : ℕ) (garbage : Bytes) (wanted : ℕ) (s : StringView)
    → s.cap ≤ wanted
    → Grown wanted s.cap (grow fuel wanted s.cap)
    → string_growup fuel false garbage wanted s ≡ oops
unfolding string_growup
string_growup-oops fuel garbage wanted s full g = elim (Option-cases (grow fuel wanted s.cap)) [
  | inl e ↦ absurd (subst (Grown wanted s.cap) e g)
  | inr (c, e) ↦
      let grows : leb s.cap wanted ≡ true = ground arith in rw (string_growup, e, grows) refl
]

-- Where the buffer has to grow and `krealloc` fails, `string_join` crashes: the result is not tested.
pub string_join-oops :
    (fuel : ℕ) (garbage : Bytes) (s : StringView) (xs ys : List ℕ)
    → IsString s xs
    → s.cap ≤ length xs + length ys
    → length xs + length ys ≤ 4096
    → length xs + length ys + 1 < fuel
    → string_join fuel false garbage ys s ≡ oops
unfolding string_join
string_join-oops fuel garbage s xs ys is full small f =
    let sum : (s.len + length ys) % 2 ^ 32 ≡ length xs + length ys = ground (arith, is.counts) in
    let over : ltb (length xs + length ys) s.cap ≡ false = ground arith in
    rw
      (
        sum,
        over,
        string_growup-oops fuel garbage (length xs + length ys) s full (
            grow_lem fuel (length xs + length ys) s.cap (ground (arith, is.fits)) small
              (omega arith) (ground arith)),
      )
      refl

-- If there is memory, a new string from nonzero bytes that are fewer than the capacity holds them.
pub string_new_cap_lem :
    (garbage : Bytes) (xs : List ℕ) (cap : ℕ)
    → Text xs
    → length xs < cap
    → OnSome (λ s. IsString s xs) (string_new_cap true true garbage xs cap)
unfolding string_new_cap store store_all
string_new_cap_lem garbage xs cap text h =
    let fits : ltb cap (length xs) ≡ false = ground arith in
    rw fits (record {
      counts = refl;
      bytes = λ i j. ground arith;
      ends = ground arith;
      fits = h;
      text = text;
    })
