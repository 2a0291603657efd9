-- ===== src/Rbtree/Keys.antt =====
-- Total orders on keys, as Boolean tests.
use learn_k.Base.{ℕ, ◌≡◌, Bool, true, false, ◌&&◌, not, arith, ltb}
use learn_k.Base.Int.{ℤ, ltb_ℤ}

pub record Order (K : Type 0) : Type 0 where
  pub lt : K → K → Bool
  pub lt_irrefl : (a : K) → lt a a ≡ false
  pub lt_trans : (a b c : K) → lt a b ≡ true → lt b c ≡ true → lt a c ≡ true
  pub lt_total : (a b : K) → lt a b ≡ false → lt b a ≡ false → a ≡ b

abbrev pub same : {K : Type 0} ⦃o : Order K⦄ → K → K → Bool
same ⦃o⦄ a b = not (o.lt a b) && not (o.lt b a)

pub ltb_irrefl : (a : ℕ) → ltb a a ≡ false
ltb_irrefl a = ground arith

pub ltb_trans : (a b c : ℕ) → ltb a b ≡ true → ltb b c ≡ true → ltb a c ≡ true
ltb_trans a b c h k = ground arith

pub ltb_total : (a b : ℕ) → ltb a b ≡ false → ltb b a ≡ false → a ≡ b
ltb_total a b h k = ground arith

-- `unsigned long`
instance abbrev pub nat_order : Order ℕ
nat_order = record { lt = ltb; lt_irrefl = ltb_irrefl; lt_trans = ltb_trans; lt_total = ltb_total }

pub ltb_ℤ_irrefl : (a : ℤ) → ltb_ℤ a a ≡ false
ltb_ℤ_irrefl a = ground arith

pub ltb_ℤ_trans : (a b c : ℤ) → ltb_ℤ a b ≡ true → ltb_ℤ b c ≡ true → ltb_ℤ a c ≡ true
ltb_ℤ_trans a b c h k = ground arith

pub ltb_ℤ_total : (a b : ℤ) → ltb_ℤ a b ≡ false → ltb_ℤ b a ≡ false → a ≡ b
ltb_ℤ_total a b h k = ground arith

-- `int`
instance abbrev pub int_order : Order ℤ
int_order = record {
  lt = ltb_ℤ;
  lt_irrefl = ltb_ℤ_irrefl;
  lt_trans = ltb_ℤ_trans;
  lt_total = ltb_ℤ_total;
}
