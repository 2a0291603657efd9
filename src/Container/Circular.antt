-- ===== src/Container/Circular.antt =====
-- `next` and `prev` as two functions: an implementation of the interface to <linux/list.h>.
use learn_k.Base.{
  ◌≡◌, refl, sym, subst, Bool, true, false, ◌||◌, List, [], ◌∷◌, ◌++◌, arith, ◌==◌, if◌then◌else◌,
}
use learn_k.Container.Links.{Ptr, has, Distinct, ListApi, Ring-enter, has-append}

pub record Pointers : Type 0 where
  pub nxt : Ptr → Ptr
  pub prv : Ptr → Ptr

abbrev pub update : (Ptr → Ptr) → Ptr → Ptr → Ptr → Ptr
update f p q a = if a == p then q else f a

-- from `p` through `xs` to `q`, both ways
abbrev pub Seg : Pointers → Ptr → List Ptr → Ptr → Type 0
Seg l p [] q = (l.nxt p ≡ q) × (l.prv q ≡ p)
Seg l p (x ∷ xs) q = (l.nxt p ≡ x) × (l.prv x ≡ p) × Seg l x xs q

abbrev pub Circle : Pointers → Ptr → List Ptr → Type 0
Circle l h xs = Seg l h xs h × Distinct (h ∷ xs)

-- A segment sees `nxt` at its members but the last and `prv` at its members but the first.
Seg-frame :
    (l k : Pointers) (p q : Ptr) (xs : List Ptr)
    → Seg l p xs q
    → ((a : Ptr) → has a (p ∷ xs) ≡ true → k.nxt a ≡ l.nxt a)
    → ((a : Ptr) → has a (xs ++ (q ∷ [])) ≡ true → k.prv a ≡ l.prv a)
    → Seg k p xs q
Seg-frame l k p q [] s f g = (ground (arith, f p), ground (arith, g q))
Seg-frame l k p q (x ∷ xs) s f g = (
  ground (arith, f p),
  ground (arith, g x),
  Seg-frame l k x q xs s.2 (λ a h. f a (ground arith)) (λ a h. g a (ground arith)),
)

has-concat : (a b : Ptr) (xs : List Ptr) → has a (xs ++ (b ∷ [])) ≡ (has a xs || (a == b))
has-concat a b [] = ground arith
has-concat a b (x ∷ xs) = ground (arith, has-concat a b xs)

Seg-concat :
    (l : Pointers) (p q r : Ptr) (xs : List Ptr)
    → Seg l p xs q
    → l.nxt q ≡ r
    → l.prv r ≡ q
    → Seg l p (xs ++ (q ∷ [])) r
Seg-concat l p q r [] s e f = (s.0, s.1, (e, f))
Seg-concat l p q r (x ∷ xs) s e f = (s.0, s.1, Seg-concat l x q r xs s.2 e f)

Distinct-concat :
    (a : Ptr) (xs : List Ptr) → Distinct xs → has a xs ≡ false → Distinct (xs ++ (a ∷ []))
Distinct-concat a [] d h = (refl, tt)
Distinct-concat a (x ∷ xs) d h =
    (ground (arith, has-concat x a xs), Distinct-concat a xs d.1 (ground arith))

pub Circle-rotate :
    (l : Pointers) (h x : Ptr) (xs : List Ptr) → Circle l h (x ∷ xs) → Circle l x (xs ++ (h ∷ []))
Circle-rotate l h x xs c = (
  Seg-concat l x h x xs c.0.2 c.0.0 c.0.1,
  (ground (arith, has-concat x h xs), Distinct-concat h xs c.1.1.1 (ground arith)),
)

abbrev pub insert : Ptr → Ptr → Pointers → Pointers
insert n h l = record {
  nxt = update (update l.nxt n (l.nxt h)) h n;
  prv = update (update l.prv (l.nxt h) n) n h;
}

pub Circle-insert :
    (l : Pointers) (n h : Ptr) (xs : List Ptr)
    → Circle l h xs
    → has n (h ∷ xs) ≡ false
    → Circle (insert n h l) h (n ∷ xs)
Circle-insert l n h [] c f =
    ((ground arith, ground arith, (ground arith, ground arith)), (ground arith, (refl, tt)))
Circle-insert l n h (x ∷ xs) c f = (
  (
    ground arith,
    ground arith,
    (
      ground arith,
      ground arith,
      Seg-frame l (insert n h l) x h xs c.0.2 (λ a i. ground arith)
          (λ a i. ground (arith, has-concat a h xs)),
    ),
  ),
  (ground arith, (ground arith, c.1.1)),
)

abbrev pub remove : Ptr → Pointers → Pointers
remove x l = record {
  nxt = update (update l.nxt (l.prv x) (l.nxt x)) x 0x100;
  prv = update (update l.prv (l.nxt x) (l.prv x)) x 0x122;
}

pub Circle-remove :
    (l : Pointers) (h x : Ptr) (xs : List Ptr) → Circle l h (x ∷ xs) → Circle (remove x l) h xs
Circle-remove l h x [] c = ((ground arith, ground arith), (refl, tt))
Circle-remove l h x (y ∷ xs) c = (
  (
    ground arith,
    ground arith,
    Seg-frame l (remove x l) y h xs c.0.2.2 (λ a i. ground arith)
        (λ a i. ground (arith, has-concat a h xs)),
  ),
  (ground arith, c.1.1.1),
)

abbrev pub init : Ptr → Pointers → Pointers
init h l = record { nxt = update l.nxt h h; prv = update l.prv h h }

pub Circle-init : (l : Pointers) (h : Ptr) → Circle (init h l) h []
Circle-init l h = ((ground arith, ground arith), (refl, tt))

pub Circle-init_other :
    (l : Pointers) (n h : Ptr) (xs : List Ptr)
    → Circle l h xs
    → has n (h ∷ xs) ≡ false
    → Circle (init n l) h xs
Circle-init_other l n h xs c f = (
  Seg-frame l (init n l) h h xs c.0 (λ a i. ground arith)
      (λ a i. ground (arith, has-concat a h xs)),
  c.1,
)

-- A list that is not empty ends with a last item.
unsnoc : (x : Ptr) (xs : List Ptr) → (front : List Ptr) × (p : Ptr) × (x ∷ xs ≡ front ++ (p ∷ []))
unsnoc x [] = ([], x, refl)
unsnoc x (y ∷ xs) = let (front, p, e) = unsnoc y xs in (x ∷ front, p, ground arith)

tail_insert :
    (l : Pointers) (n h p : Ptr) (front : List Ptr)
    → Circle l h (front ++ (p ∷ []))
    → has n (h ∷ (front ++ (p ∷ []))) ≡ false
    → Circle (insert n (l.prv h) l) h ((front ++ (p ∷ [])) ++ (n ∷ []))
tail_insert l n h p front c f =
    let d = Ring-enter Circle Circle-rotate l h p front [] c in
    rw (d.0.1) (
      Circle-rotate (insert n p l) n h (front ++ (p ∷ [])) (
        Circle-rotate (insert n p l) p n (h ∷ front)
          (Circle-insert l n p (h ∷ front) d (ground (arith, has-append n front (p ∷ []))))))

pub Circle-insert_tail :
    (l : Pointers) (n h : Ptr) (xs : List Ptr)
    → Circle l h xs
    → has n (h ∷ xs) ≡ false
    → Circle (insert n (l.prv h) l) h (xs ++ (n ∷ []))
Circle-insert_tail l n h [] c f =
    subst (λ q. Circle (insert n q l) h (n ∷ [])) (sym c.0.1) (Circle-insert l n h [] c f)
Circle-insert_tail l n h (x ∷ xs) c f =
    let (front, p, e) = unsnoc x xs in
    subst (λ ys. Circle (insert n (l.prv h) l) h (ys ++ (n ∷ []))) (sym e)
      (tail_insert l n h p front (subst (λ ys. Circle l h ys) e c)
        (subst (λ ys. has n (h ∷ ys) ≡ false) e f))

abbrev pub is_empty : Pointers → Ptr → Bool
is_empty l h = l.nxt h == h

pub empty_of_nil : (l : Pointers) (h : Ptr) → Circle l h [] → is_empty l h ≡ true
empty_of_nil l h c = ground arith

pub empty_of_cons :
    (l : Pointers) (h x : Ptr) (xs : List Ptr) → Circle l h (x ∷ xs) → is_empty l h ≡ false
empty_of_cons l h x xs c = ground arith

-- what is before a member of a segment
prv-Seg :
    (l : Pointers) (p a : Ptr) (xs : List Ptr) (q : Ptr)
    → Seg l p xs q
    → has a xs ≡ true
    → has (l.prv a) (p ∷ xs) ≡ true
prv-Seg l p a [] q s h = cc
prv-Seg l p a (x ∷ xs) q s h = ground (arith, prv-Seg l x a xs q s.2)

pub list_is_first_lem :
    (l : Pointers) (h : Ptr) (xs : List Ptr) (a : Ptr)
    → Circle l h xs
    → has a xs ≡ true
    → (l.prv a == h) ≡ (l.nxt h == a)
list_is_first_lem l h [] a c i = cc
list_is_first_lem l h (x ∷ xs) a c i = ground (arith, prv-Seg l x a xs h c.0.2)

abbrev pub circular : ListApi
circular = record {
  Links = Pointers;
  Ring = Circle;
  next = λ l. l.nxt;
  list_empty = is_empty;
  list_is_first = λ l a h. l.prv a == h;
  init_list_head = init;
  list_add = insert;
  list_add_tail = λ n h l. insert n (l.prv h) l;
  list_del = remove;
  next-nil = λ l h c. c.0.0;
  next-cons = λ l h x xs c. c.0.0;
  empty-nil = empty_of_nil;
  empty-cons = empty_of_cons;
  first_lem = list_is_first_lem;
  distinct = λ l h xs c. c.1;
  rotate = Circle-rotate;
  Ring-init = Circle-init;
  Ring-init_other = Circle-init_other;
  Ring-add = Circle-insert;
  Ring-add_tail = Circle-insert_tail;
  Ring-del = Circle-remove;
}
