-- ===== src/Rbtree/Entries.antt =====
-- Lists of entries in the order of their keys.
use learn_k.Base.{
  ◌≡◌, refl, Bool, true, false, Option, none, some, List, [], ◌∷◌, ◌++◌, arith, ◌==◌, if◌then◌else◌,
}
use learn_k.Container.Links.{Ptr}
use learn_k.Rbtree.Keys.{Order, same}

-- A node with the structure around it: its address, its key, and what it carries.
pub record Entry (K V : Type 0) : Type 0 where
  pub addr : Ptr
  pub key : K
  pub value : V

abbrev pub without : {K V : Type 0} → Ptr → List (Entry K V) → List (Entry K V)
without a [] = []
without a (e ∷ es) = if e.addr == a then es else e ∷ without a es

-- an entry at the address `a`
abbrev pub holds : {K V : Type 0} → Ptr → List (Entry K V) → Bool
holds a [] = false
holds a (e ∷ es) = if e.addr == a then true else holds a es

abbrev pub Apart : {K V : Type 0} → List (Entry K V) → Type 0
Apart [] = Unit
Apart (e ∷ es) = (holds e.addr es ≡ false) × Apart es

asym : {K : Type 0} ⦃o : Order K⦄ (a b : K) → o.lt a b ≡ true → o.lt b a ≡ false
asym ⦃o⦄ a b h = ground (arith, o.lt_trans a b a, o.lt_irrefl a)

module _ {K V : Type 0} ⦃o : Order K⦄ where
  -- `k` is below, or above, every key.
  abbrev pub Over : K → List (Entry K V) → Type 0
  Over k [] = Unit
  Over k (e ∷ es) = (o.lt k e.key ≡ true) × Over k es

  abbrev pub Under : K → List (Entry K V) → Type 0
  Under k [] = Unit
  Under k (e ∷ es) = (o.lt e.key k ≡ true) × Under k es

  abbrev pub Sorted : List (Entry K V) → Type 0
  Sorted [] = Unit
  Sorted (e ∷ es) = Over e.key es × Sorted es

  abbrev pub find : K → List (Entry K V) → Option (Entry K V)
  find k [] = none
  find k (e ∷ es) = if same k e.key then some e else find k es

  abbrev pub insert_in : Entry K V → List (Entry K V) → List (Entry K V)
  insert_in e [] = e ∷ []
  insert_in e (x ∷ xs) = if o.lt e.key x.key then e ∷ x ∷ xs else x ∷ insert_in e xs

  pub Over-trans : (k j : K) (es : List (Entry K V)) → o.lt k j ≡ true → Over j es → Over k es
  Over-trans k j [] h a = tt
  Over-trans k j (e ∷ es) h a = (o.lt_trans k j e.key h a.0, Over-trans k j es h a.1)

  pub find-Over : (k : K) (es : List (Entry K V)) → Over k es → find k es ≡ none
  find-Over k [] a = refl
  find-Over k (e ∷ es) a = ground (arith, find-Over k es a.1)

  -- A search at a split of the list.
  pub find_left : (k : K) (xs ys : List (Entry K V)) → Over k ys → find k (xs ++ ys) ≡ find k xs
  find_left k [] ys a = find-Over k ys a
  find_left k (x ∷ xs) ys a = ground (arith, find_left k xs ys a)

  pub find_right : (k : K) (xs ys : List (Entry K V)) → Under k xs → find k (xs ++ ys) ≡ find k ys
  find_right k [] ys a = refl
  find_right k (x ∷ xs) ys a = ground (arith, find_right k xs ys a.1)

  pub insert_left :
      (e : Entry K V) (xs : List (Entry K V)) (y : Entry K V) (ys : List (Entry K V))
      → o.lt e.key y.key ≡ true
      → insert_in e (xs ++ (y ∷ ys)) ≡ insert_in e xs ++ (y ∷ ys)
  insert_left e [] y ys h = ground arith
  insert_left e (x ∷ xs) y ys h = ground (arith, insert_left e xs y ys h)

  pub insert_right :
      (e : Entry K V) (xs ys : List (Entry K V))
      → Under e.key xs
      → insert_in e (xs ++ ys) ≡ xs ++ insert_in e ys
  insert_right e [] ys u = refl
  insert_right e (x ∷ xs) ys u = ground (arith, insert_right e xs ys u.1, asym x.key e.key u.0)

  -- What sortedness says at a split.
  pub Sorted-split :
      (xs : List (Entry K V)) (e : Entry K V) (ys : List (Entry K V))
      → Sorted (xs ++ (e ∷ ys))
      → Sorted xs × Under e.key xs × Over e.key ys × Sorted ys
  Sorted-split [] e ys s = (tt, tt, s.0, s.1)
  Sorted-split (x ∷ xs) e ys s =
      let (a, b, c, d) = Sorted-split xs e ys s.1 in
      let (f, g) = go xs s.0 in ((f, a), (g, b), c, d)
    where
      go :
          (zs : List (Entry K V))
          → Over x.key (zs ++ (e ∷ ys))
          → Over x.key zs × (o.lt x.key e.key ≡ true)
      go [] a = (tt, a.0)
      go (z ∷ zs) a = let (b, c) = go zs a.1 in ((a.0, b), c)

  pub Under-trans : (k j : K) (es : List (Entry K V)) → o.lt k j ≡ true → Under k es → Under j es
  Under-trans k j [] h a = tt
  Under-trans k j (e ∷ es) h a = (o.lt_trans e.key k j a.0 h, Under-trans k j es h a.1)

  -- Insertion of a new key, as a map.
  Over-insert_in :
      (k : K) (e : Entry K V) (xs : List (Entry K V))
      → o.lt k e.key ≡ true
      → Over k xs
      → Over k (insert_in e xs)
  Over-insert_in k e [] h a = (h, tt)
  Over-insert_in k e (x ∷ xs) h a = ground (arith, Over-insert_in k e xs h a.1)

  pub Sorted-insert_in :
      (e : Entry K V) (xs : List (Entry K V))
      → find e.key xs ≡ none
      → Sorted xs
      → Sorted (insert_in e xs)
  Sorted-insert_in e [] n s = (tt, tt)
  Sorted-insert_in e (x ∷ xs) n s =
      ground (arith, Sorted-insert_in e xs, Over-trans e.key x.key xs, Over-insert_in x.key e xs)

  pub find-insert_in :
      (j : K) (e : Entry K V) (xs : List (Entry K V))
      → find e.key xs ≡ none
      → find j (insert_in e xs) ≡ (if same j e.key then some e else find j xs)
  find-insert_in j e [] n = refl
  find-insert_in j e (x ∷ xs) n =
      ground
        (arith, find-insert_in j e xs, o.lt_total j e.key, o.lt_total j x.key, o.lt_irrefl e.key)

  pub holds-insert_in :
      (a : Ptr) (e : Entry K V) (xs : List (Entry K V))
      → holds a (insert_in e xs) ≡ (if e.addr == a then true else holds a xs)
  holds-insert_in a e [] = refl
  holds-insert_in a e (x ∷ xs) = ground (arith, holds-insert_in a e xs)

  pub Apart-insert_in :
      (e : Entry K V) (xs : List (Entry K V))
      → holds e.addr xs ≡ false
      → Apart xs
      → Apart (insert_in e xs)
  Apart-insert_in e [] h a = (refl, tt)
  Apart-insert_in e (x ∷ xs) h a = ground (arith, Apart-insert_in e xs, holds-insert_in x.addr e xs)

  -- Removal of the entry that was found.
  pub holds-find :
      (k : K) (xs : List (Entry K V)) (e : Entry K V) → find k xs ≡ some e → holds e.addr xs ≡ true
  holds-find k [] e h = cc
  holds-find k (x ∷ xs) e h = ground (arith, holds-find k xs e)

  pub find-without :
      (j k : K) (xs : List (Entry K V)) (e : Entry K V)
      → Sorted xs
      → Apart xs
      → find k xs ≡ some e
      → find j (without e.addr xs) ≡ (if same j k then none else find j xs)
  find-without j k [] e s a h = cc
  find-without j k (x ∷ xs) e s a h = ground (
    arith,
    find-without j k xs e s.1 a.1,
    holds-find k xs e,
    find-Over x.key xs s.0,
    o.lt_total k x.key,
    o.lt_total j k,
  )

  Over-without : (k : K) (a : Ptr) (xs : List (Entry K V)) → Over k xs → Over k (without a xs)
  Over-without k a [] h = tt
  Over-without k a (x ∷ xs) h = ground (arith, Over-without k a xs h.1)

  pub Sorted-without : (a : Ptr) (xs : List (Entry K V)) → Sorted xs → Sorted (without a xs)
  Sorted-without a [] s = tt
  Sorted-without a (x ∷ xs) s = ground (arith, Sorted-without a xs s.1, Over-without x.key a xs s.0)

-- Removal at an address.
module _ {K V : Type 0} where
  pub holds-without :
      (b a : Ptr) (xs : List (Entry K V))
      → Apart xs
      → holds b (without a xs) ≡ (if a == b then false else holds b xs)
  holds-without b a [] d = ground arith
  holds-without b a (x ∷ xs) d = ground (arith, holds-without b a xs d.1)

  pub Apart-without : (a : Ptr) (xs : List (Entry K V)) → Apart xs → Apart (without a xs)
  Apart-without a [] d = tt
  Apart-without a (x ∷ xs) d = ground (arith, Apart-without a xs d.1, holds-without x.addr a xs d.1)
