-- ===== src/Container/Links.antt =====
-- The interface to <linux/list.h>: circular doubly linked lists of `struct list_head`.
use learn_k.Base.{
  ltb, ◌&&◌, ◌+◌, ℕ, ◌≡◌, refl, Bool, true, false, ◌||◌, List, [], ◌∷◌, ◌++◌, arith, ◌==◌, subst,
}
use mathlib.Core.List.{append_assoc}

abbrev pub Ptr : Type 0
Ptr = ℕ

abbrev pub has : Ptr → List Ptr → Bool
has a [] = false
has a (x ∷ xs) = (a == x) || has a xs

-- two structs of 24 bytes, at `a` and at one of `xs`, overlap
abbrev pub near : Ptr → List Ptr → Bool
near a [] = false
near a (x ∷ xs) = (ltb a (x + 24) && ltb x (a + 24)) || near a xs

pub near-has : (a : Ptr) (xs : List Ptr) → near a xs ≡ false → has a xs ≡ false
near-has a [] h = refl
near-has a (x ∷ xs) h = ground (arith, near-has a xs, h)

abbrev pub Distinct : List Ptr → Type 0
Distinct [] = Unit
Distinct (x ∷ xs) = (has x xs ≡ false) × Distinct xs

pub has-append : (a : Ptr) (xs ys : List Ptr) → has a (xs ++ ys) ≡ (has a xs || has a ys)
has-append a [] ys = refl
has-append a (x ∷ xs) ys = ground (arith, has-append a xs ys)

-- `Links` is what the `next` and `prev` of all `list_head`s hold. `Ring l h xs`: from `h` on, `next`
-- leads through the distinct `xs` and back to `h`. The functions take their arguments in the order
-- of the C functions; `list_add entry h` puts `entry` behind `h`, `list_add_tail entry h` before it.
pub record ListApi : Type 1 where
  pub Links : Type 0
  pub Ring : Links → Ptr → List Ptr → Type 0
  pub next : Links → Ptr → Ptr
  pub list_empty : Links → Ptr → Bool
  pub list_is_first : Links → (entry h : Ptr) → Bool
  pub init_list_head : Ptr → Links → Links
  pub list_add : Ptr → Ptr → Links → Links
  pub list_add_tail : Ptr → Ptr → Links → Links
  pub list_del : Ptr → Links → Links
  pub next-nil : (l : Links) (h : Ptr) → Ring l h [] → next l h ≡ h
  pub next-cons : (l : Links) (h x : Ptr) (xs : List Ptr) → Ring l h (x ∷ xs) → next l h ≡ x
  pub empty-nil : (l : Links) (h : Ptr) → Ring l h [] → list_empty l h ≡ true
  pub empty-cons :
      (l : Links) (h x : Ptr) (xs : List Ptr) → Ring l h (x ∷ xs) → list_empty l h ≡ false
  pub first_lem :
      (l : Links) (h : Ptr) (xs : List Ptr) (a : Ptr)
      → Ring l h xs
      → has a xs ≡ true
      → list_is_first l a h ≡ (next l h == a)
  pub distinct : (l : Links) (h : Ptr) (xs : List Ptr) → Ring l h xs → Distinct (h ∷ xs)
  pub rotate :
      (l : Links) (h x : Ptr) (xs : List Ptr) → Ring l h (x ∷ xs) → Ring l x (xs ++ (h ∷ []))
  pub Ring-init : (l : Links) (h : Ptr) → Ring (init_list_head h l) h []
  -- a `list_head` outside a ring may be initialised
  pub Ring-init_other :
      (l : Links) (n h : Ptr) (xs : List Ptr)
      → Ring l h xs
      → has n (h ∷ xs) ≡ false
      → Ring (init_list_head n l) h xs
  pub Ring-add :
      (l : Links) (n h : Ptr) (xs : List Ptr)
      → Ring l h xs
      → has n (h ∷ xs) ≡ false
      → Ring (list_add n h l) h (n ∷ xs)
  pub Ring-add_tail :
      (l : Links) (n h : Ptr) (xs : List Ptr)
      → Ring l h xs
      → has n (h ∷ xs) ≡ false
      → Ring (list_add_tail n h l) h (xs ++ (n ∷ []))
  pub Ring-del :
      (l : Links) (h x : Ptr) (xs : List Ptr) → Ring l h (x ∷ xs) → Ring (list_del x l) h xs

-- A ring may be entered at any of its members.
pub Ring-enter :
    {L : Type 0} (Ring : L → Ptr → List Ptr → Type 0)
    → ((l : L) (h x : Ptr) (xs : List Ptr) → Ring l h (x ∷ xs) → Ring l x (xs ++ (h ∷ [])))
    → (l : L) (h p : Ptr) (front back : List Ptr) → Ring l h (front ++ (p ∷ back))
    → Ring l p (back ++ (h ∷ front))
Ring-enter Ring rotate l h p [] back r = rotate l h p back r
Ring-enter Ring rotate l h p (a ∷ front) back r =
    subst (Ring l p) (append_assoc back (h ∷ []) (a ∷ front)) (
      Ring-enter Ring rotate l a p front (back ++ (h ∷ [])) (
        subst (Ring l a) (append_assoc front (p ∷ back) (h ∷ []))
          (rotate l h a (front ++ (p ∷ back)) r)))
