-- ===== src/Rhash/Elements.antt =====
-- Lists of entries, and one put in anywhere.
use learn_k.Base.{
  ℕ, ◌≡◌, refl, true, false, none, some, List, [], ◌∷◌, ◌++◌, arith, ◌==◌, if◌then◌else◌,
}
use learn_k.Container.Links.{Ptr}
use learn_k.Rbtree.Entries.{holds, Apart}
use learn_k.Rhash.{HashEntry, find_key}

pub holds-insert :
    (a : Ptr) (l : List HashEntry) (e : HashEntry) (r : List HashEntry)
    → holds a (l ++ (e ∷ r)) ≡ (if e.addr == a then true else holds a (l ++ r))
holds-insert a [] e r = refl
holds-insert a (x ∷ l) e r = ground (arith, holds-insert a l e r)

pub Apart-insert :
    (l : List HashEntry) (e : HashEntry) (r : List HashEntry)
    → holds e.addr (l ++ r) ≡ false
    → Apart (l ++ r)
    → Apart (l ++ (e ∷ r))
Apart-insert [] e r h d = (h, d)
Apart-insert (x ∷ l) e r h d = ground (arith, Apart-insert l e r, holds-insert x.addr l e r)

pub find_key-insert :
    (key : ℕ) (l : List HashEntry) (e : HashEntry) (r : List HashEntry)
    → find_key e.key (l ++ r) ≡ none
    → find_key key (l ++ (e ∷ r)) ≡ (if e.key == key then some e else find_key key (l ++ r))
find_key-insert key [] e r n = refl
find_key-insert key (x ∷ l) e r n = ground (arith, find_key-insert key l e r)

pub holds-find_key :
    (key : ℕ) (es : List HashEntry) (e : HashEntry)
    → find_key key es ≡ some e
    → holds e.addr es ≡ true
holds-find_key key [] e h = cc
holds-find_key key (x ∷ xs) e h = ground (arith, holds-find_key key xs e)
