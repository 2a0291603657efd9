-- ===== src/Printf/Decimal.antt =====
-- `%d`, and reading the number back.
use learn_k.Base.{
  Bool-cases, inl, inr, ℕ, zero, suc, ◌+◌, ◌/◌, ◌%◌, ◌<◌, ◌≡◌, refl, true, false, List, [], ◌∷◌,
  ◌++◌, arith, ◌==◌, if◌then◌else◌,
}
use learn_k.Strings.Join.{Text, Text-cons}
use learn_k.Base.Int.{ℤ, pos, negsuc}

-- the digits of `n` before `out`
unfoldable pub digits : ℕ → ℕ → List ℕ → List ℕ
digits zero n out = out
digits (suc fuel) n out = elim (n == 0) [
  | true ↦ out
  | false ↦ digits fuel (n / 10) ((48 + n % 10) ∷ out)
]

abbrev pub natural : ℕ → List ℕ
natural n = if n == 0 then 48 ∷ [] else digits n n []

-- 45 is the minus sign
unfoldable pub decimal : ℤ → List ℕ
unfolding digits
decimal (pos n) = natural n
decimal (negsuc n) = 45 ∷ natural (suc n)

pub digits-append :
    (fuel n : ℕ) (out rest : List ℕ) → digits fuel n out ++ rest ≡ digits fuel n (out ++ rest)
unfolding digits
digits-append zero n out rest = refl
digits-append (suc fuel) n out rest =
    ground (arith, digits-append fuel (n / 10) ((48 + n % 10) ∷ out) rest)

Text-digits : (fuel n : ℕ) (out : List ℕ) → Text out → Text (digits fuel n out)
unfolding digits
Text-digits zero n out t = t
Text-digits (suc fuel) n out t = elim (Bool-cases (n == 0)) [
  | inl e ↦ rw (digits, e) t
  | inr e ↦
      rw (digits, e)
        (Text-digits fuel (n / 10) ((48 + n % 10) ∷ out)
          (Text-cons (48 + n % 10) out (λ e. absurd (omega (arith, e))) t))
]

pub Text-nil : Text []
Text-nil i h = absurd (omega (arith, h))

Text-natural : (n : ℕ) → Text (natural n)
Text-natural n = elim (Bool-cases (n == 0)) [
  | inl e ↦ rw e (Text-cons 48 [] (λ e. absurd (omega (arith, e))) Text-nil)
  | inr e ↦ rw e (Text-digits n n [] Text-nil)
]

pub Text-decimal : (v : ℤ) → Text (decimal v)
unfolding decimal
Text-decimal (pos n) = Text-natural n
Text-decimal (negsuc n) =
    Text-cons 45 (natural (suc n)) (λ e. absurd (omega (arith, e))) (Text-natural (suc n))

-- Some byte comes first, and it is a digit or a minus.
pub record Starts (bs : List ℕ) : Type 0 where
  pub byte : ℕ
  pub others : List ℕ
  pub cons : bs ≡ byte ∷ others
  pub low : byte < 58

Starts-digits : (fuel n : ℕ) (out : List ℕ) → Starts out → Starts (digits fuel n out)
unfolding digits
Starts-digits zero n out s = s
Starts-digits (suc fuel) n out s = elim (Bool-cases (n == 0)) [
  | inl e ↦ rw (digits, e) s
  | inr e ↦
      rw (digits, e)
        (Starts-digits fuel (n / 10) ((48 + n % 10) ∷ out)
          (record { byte = 48 + n % 10; others = out; cons = refl; low = omega arith }))
]

Starts-natural : (n : ℕ) → Starts (natural n)
unfolding digits
Starts-natural zero = record { byte = 48; others = []; cons = refl; low = omega arith }
Starts-natural (suc n) =
    let more : (suc n == 0) ≡ false = ground arith in
    rw (more, digits)
      (Starts-digits n (suc n / 10) ((48 + suc n % 10) ∷ [])
        (record { byte = 48 + suc n % 10; others = []; cons = refl; low = omega arith }))

pub Starts-decimal : (v : ℤ) → Starts (decimal v)
unfolding decimal
Starts-decimal (pos n) = Starts-natural n
Starts-decimal (negsuc n) = record {
  byte = 45;
  others = natural (suc n);
  cons = refl;
  low = omega arith;
}

test : (decimal (pos 4095) ≡ 52 ∷ 48 ∷ 57 ∷ 53 ∷ []) × (decimal (negsuc 9) ≡ 45 ∷ 49 ∷ 48 ∷ [])
unfolding decimal digits
test = (refl, refl)
