-- ===== src/Container/Cells.antt =====
-- What list a handle stands for, and how it is walked.
use learn_k.Base.{◌≡◌, refl, ap, false, Option, some, List, [], ◌∷◌, ◌++◌, arith}
use learn_k.Base.Int.{ℤ}
use learn_k.Container.Links.{Ptr, has, ListApi}
use learn_k.Container.Core.{Store, put_value}

-- address and value of each node, in order
abbrev pub Cells : Type 0
Cells = List (Ptr × ℤ)

abbrev pub addrs : Cells → List Ptr
addrs [] = []
addrs ((p, v) ∷ xs) = p ∷ addrs xs

abbrev pub values : Cells → List ℤ
values [] = []
values ((p, v) ∷ xs) = v ∷ values xs

-- every node is allocated and holds its value
abbrev pub Holds : (Ptr → Option ℤ) → Cells → Type 0
Holds f [] = Unit
Holds f ((p, v) ∷ xs) = (f p ≡ some v) × Holds f xs

-- The list at `h` consists of the nodes `xs`.
pub record IsList (K : ListApi) (s : Store K.Links) (h : Ptr) (xs : Cells) : Type 0 where
  pub ring : K.Ring s.links h (addrs xs)
  pub held : Holds s.value xs

-- `p` is unused: neither a node nor the head.
abbrev pub IsFresh : {L : Type 0} → Store L → Ptr → Ptr → Cells → Type 0
IsFresh s p h xs = has p (h ∷ addrs xs) ≡ false

pub addrs-append : (xs ys : Cells) → addrs (xs ++ ys) ≡ addrs xs ++ addrs ys
addrs-append [] ys = refl
addrs-append ((p, v) ∷ xs) ys = ap (λ r. p ∷ r) (addrs-append xs ys)

pub values-append : (xs ys : Cells) → values (xs ++ ys) ≡ values xs ++ values ys
values-append [] ys = refl
values-append ((p, v) ∷ xs) ys = ap (λ r. v ∷ r) (values-append xs ys)

pub Holds-append :
    (f : Ptr → Option ℤ) (xs ys : Cells) → Holds f xs → Holds f ys → Holds f (xs ++ ys)
Holds-append f [] ys a b = b
Holds-append f ((p, v) ∷ xs) ys a b = (a.0, Holds-append f xs ys a.1 b)

-- A write elsewhere keeps what is held.
pub Holds-put :
    (f : Ptr → Option ℤ) (p : Ptr) (v : Option ℤ) (xs : Cells)
    → has p (addrs xs) ≡ false
    → Holds f xs
    → Holds (put_value f p v) xs
Holds-put f p v [] h a = tt
Holds-put f p v ((q, w) ∷ xs) h a = (ground arith, Holds-put f p v xs (ground arith) a.1)
