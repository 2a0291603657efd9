-- ===== src/Hashmap/Chains.antt =====
-- A chain of the table.
use learn_k.Base.{
  ℕ, ◌≡◌, refl, true, false, Option, none, some, List, [], ◌∷◌, arith, if◌then◌else◌,
}
use learn_k.Base.Int.{ℤ, eqb_ℤ}
use learn_k.Container.Links.{Ptr}
use learn_k.Rbtree.Entries.{without, holds, Apart}
use learn_k.Hashmap.{MyData, first_with}

pub eqb_ℤ→≡ : (a b : ℤ) → eqb_ℤ a b ≡ true → a ≡ b
eqb_ℤ→≡ a b h = ground arith

-- the names under a key, the newest first
abbrev pub names : ℤ → List MyData → List ℕ
names key [] = []
names key (e ∷ es) = if eqb_ℤ e.key key then e.value ∷ names key es else names key es

abbrev pub tail : List ℕ → List ℕ
tail [] = []
tail (x ∷ xs) = xs

abbrev pub name_of : Option MyData → Option ℕ
name_of none = none
name_of (some e) = some e.value

abbrev pub first : List ℕ → Option ℕ
first [] = none
first (x ∷ xs) = some x

pub first_with-names :
    (key : ℤ) (es : List MyData) → name_of (first_with key es) ≡ first (names key es)
unfolding first_with
first_with-names key [] = refl
first_with-names key (e ∷ es) = ground (arith, first_with-names key es)

pub first_with-holds :
    (key : ℤ) (es : List MyData) (e : MyData) → first_with key es ≡ some e → holds e.addr es ≡ true
unfolding first_with
first_with-holds key [] e h = cc
first_with-holds key (x ∷ xs) e h = ground (arith, first_with-holds key xs e)

pub first_with-none : (key : ℤ) (es : List MyData) → first_with key es ≡ none → names key es ≡ []
unfolding first_with
first_with-none key [] h = refl
first_with-none key (x ∷ xs) h = ground (arith, first_with-none key xs)

pub names-without :
    (j key : ℤ) (es : List MyData) (e : MyData)
    → Apart es
    → first_with key es ≡ some e
    → names j (without e.addr es) ≡ (if eqb_ℤ j key then tail (names j es) else names j es)
unfolding first_with
names-without j key [] e d h = cc
names-without j key (x ∷ xs) e d h = ground (
  arith,
  names-without j key xs e d.1,
  first_with-holds key xs e,
  eqb_ℤ→≡ x.key key,
  eqb_ℤ→≡ j key,
)

pub without_absent : (a : Ptr) (es : List MyData) → holds a es ≡ false → without a es ≡ es
without_absent a [] h = refl
without_absent a (e ∷ es) h = ground (arith, without_absent a es)
