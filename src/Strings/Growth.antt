-- ===== src/Strings/Growth.antt =====
-- The loop of `string_growup`.
use learn_k.Base.{
  ℕ, zero, suc, ◌+◌, ◌*◌, ◌≤◌, ◌<◌, ◌≡◌, refl, true, Option, ◌⊎◌, none, some, arith, leb,
  Bool-cases, inl, inr,
}
use learn_k.Strings.{grow, next_cap}

-- From 8192 bytes on, growing never ends: past 4096 bytes each turn leaves the capacity at most as
-- large as it was.
pub grow_endless :
    (fuel wanted cap : ℕ) → 8192 ≤ wanted → cap ≤ wanted → grow fuel wanted cap ≡ none
unfolding grow
grow_endless zero wanted cap w c = refl
grow_endless (suc fuel) wanted cap w c =
    ground (arith, grow_endless fuel wanted (next_cap cap) w (ground arith))

doubles : (wanted cap : ℕ) → wanted ≤ 4096 → leb cap wanted ≡ true → next_cap cap ≡ cap + cap
doubles wanted cap w small = ground arith

-- the capacity that growing ends with
abbrev pub Grown : (wanted cap : ℕ) → Option ℕ → Type 0
Grown wanted cap none = ⊥
Grown wanted cap (some c) = (wanted < c) × ((c ≡ cap) ⊎ (c ≤ 2 * wanted))

widen :
    (wanted cap : ℕ) (c : Option ℕ) → cap ≤ wanted → Grown wanted (cap + cap) c → Grown wanted cap c
widen wanted cap none small g = g
widen wanted cap (some c) small g = (g.0, inr (ground arith))

-- From a capacity above 0, for up to 4096 bytes, and with fuel for one turn a byte, growing ends,
-- with room for what is wanted, and with the capacity there was or at most twice what is wanted.
pub grow_lem :
    (fuel wanted cap : ℕ)
    → 0 < cap
    → wanted ≤ 4096
    → 0 < fuel
    → wanted + 1 < cap + fuel
    → Grown wanted cap (grow fuel wanted cap)
unfolding grow
grow_lem zero wanted cap c w f e = absurd (omega arith)
grow_lem (suc fuel) wanted cap c w f e = elim (Bool-cases (leb cap wanted)) [
  | inl small ↦
      let doubled =
        grow_lem fuel wanted (cap + cap) (omega arith) w (ground arith) (ground arith) in
      rw (small, doubles wanted cap w small)
        (widen wanted cap (grow fuel wanted (cap + cap)) (ground arith) doubled)
  | inr large ↦ rw large (ground arith, inl refl)
]
