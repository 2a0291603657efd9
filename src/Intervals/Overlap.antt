-- ===== src/Intervals/Overlap.antt =====
-- Lists of intervals.
use learn_k.Base.{
  ℕ, ◌≡◌, refl, true, false, Option, none, List, [], ◌∷◌, ◌++◌, arith, ◌==◌, if◌then◌else◌,
}
use learn_k.Container.Links.{Ptr}
use learn_k.Rbtree.{head}
use learn_k.Rbtree.Entries.{holds, Apart}
use learn_k.Intervals.{NodeValue, overlapping, insert_by_start}

-- The address of the last node, or `d` if there is none.
abbrev pub last_or : Ptr → List NodeValue → Ptr
last_or d [] = d
last_or d (n ∷ ns) = last_or n.addr ns

pub holds-overlapping :
    (a : Ptr) (start last : ℕ) (ns : List NodeValue)
    → holds a (overlapping start last ns) ≡ true
    → holds a ns ≡ true
holds-overlapping a start last [] h = h
holds-overlapping a start last (n ∷ ns) h = ground (arith, holds-overlapping a start last ns)

pub Apart-overlapping :
    (start last : ℕ) (ns : List NodeValue) → Apart ns → Apart (overlapping start last ns)
Apart-overlapping start last [] d = tt
Apart-overlapping start last (n ∷ ns) d =
    ground (arith, Apart-overlapping start last ns d.1, holds-overlapping n.addr start last ns)

-- The node after the one at `a`.
abbrev pub next_of : Ptr → List NodeValue → Option NodeValue
next_of a [] = none
next_of a (n ∷ ns) = if n.addr == a then head ns else next_of a ns

holds-middle :
    (before : List NodeValue) (n : NodeValue) (after : List NodeValue)
    → holds n.addr (before ++ (n ∷ after)) ≡ true
holds-middle [] n after = ground arith
holds-middle (x ∷ xs) n after = ground (arith, holds-middle xs n after)

pub next_of_lem :
    (before : List NodeValue) (n : NodeValue) (after : List NodeValue)
    → Apart (before ++ (n ∷ after))
    → next_of n.addr (before ++ (n ∷ after)) ≡ head after
next_of_lem [] n after d = ground arith
next_of_lem (x ∷ xs) n after d = ground (arith, next_of_lem xs n after d.1, holds-middle xs n after)

pub holds-last_or :
    (d : Ptr) (n : NodeValue) (ns : List NodeValue) → holds (last_or d (n ∷ ns)) (n ∷ ns) ≡ true
holds-last_or d n [] = ground arith
holds-last_or d n (x ∷ xs) = ground (arith, holds-last_or d x xs)

pub holds-insert_by_start :
    (a : Ptr) (e : NodeValue) (xs : List NodeValue)
    → holds a (insert_by_start e xs) ≡ (if e.addr == a then true else holds a xs)
holds-insert_by_start a e [] = refl
holds-insert_by_start a e (x ∷ xs) = ground (arith, holds-insert_by_start a e xs)

pub Apart-insert_by_start :
    (e : NodeValue) (xs : List NodeValue)
    → holds e.addr xs ≡ false
    → Apart xs
    → Apart (insert_by_start e xs)
Apart-insert_by_start e [] h a = (refl, tt)
Apart-insert_by_start e (x ∷ xs) h a =
    ground (arith, Apart-insert_by_start e xs, holds-insert_by_start x.addr e xs)
