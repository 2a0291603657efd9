-- ===== src/Container/Walk.antt =====
-- The loops over a list: `link_list_get`, `link_list_insert` and `link_list_remove`.
use learn_k.Base.{
  ◌^◌, ℕ, zero, suc, ◌≤◌, ◌<◌, ◌≡◌, refl, sym, subst, false, Option, none, some, List, [], ◌∷◌,
  ◌++◌, arith, ◌==◌, length, get_elem?,
}
use mathlib.Core.List.{append_assoc}
use native.Mathlib.Decide.{dec_lt}
use learn_k.Base.Int.{ℤ, pos, negsuc}
use learn_k.Kernel.{done}
use learn_k.Container.Links.{Ptr, ListApi, Ring-enter, has-append}
use learn_k.Container.Core.{Store, Handle, get_loop, link_list_get}
use learn_k.Container.Cells.{Cells, addrs, values, Holds, IsList}

-- the first item, or the head of the ring
abbrev pub first : List Ptr → Ptr → Ptr
first [] h = h
first (x ∷ xs) h = x

module _ (K : ListApi) where
  next-first :
      (l : K.Links) (h p : Ptr) (front back : List Ptr)
      → K.Ring l h (front ++ (p ∷ back))
      → K.next l p ≡ first back h
  next-first l h p front [] r =
      K.next-cons l p h front (Ring-enter K.Ring K.rotate l h p front [] r)
  next-first l h p front (b ∷ back) r =
      K.next-cons l p b (back ++ (h ∷ front)) (Ring-enter K.Ring K.rotate l h p front (b ∷ back) r)

  -- From `p` on, `next` leads through `xs` and then to `h`, which is none of them.
  abbrev pub Walk : K.Links → Ptr → Ptr → List Ptr → Type 0
  Walk l h p [] = p ≡ h
  Walk l h p (x ∷ xs) = (p ≡ x) × ((x == h) ≡ false) × Walk l h (K.next l x) xs

  Walk-suffix :
      (l : K.Links) (h : Ptr) (front back : List Ptr)
      → K.Ring l h (front ++ back)
      → Walk l h (first back h) back
  Walk-suffix l h front [] r = refl
  Walk-suffix l h front (x ∷ back) r = (
    refl,
    ground (arith, has-append h front (x ∷ back), (K.distinct l h (front ++ (x ∷ back)) r).0),
    subst (λ p. Walk l h p back) (sym (next-first l h x front back r))
        (Walk-suffix l h (front ++ (x ∷ [])) back
          (subst (K.Ring l h) (sym (append_assoc front (x ∷ []) back)) r)),
  )

  pub Walk-ring : (l : K.Links) (h : Ptr) (xs : List Ptr) → K.Ring l h xs → Walk l h (K.next l h) xs
  Walk-ring l h [] r = K.next-nil l h r
  Walk-ring l h (x ∷ xs) r =
      subst (λ p. Walk l h p (x ∷ xs)) (sym (K.next-cons l h x xs r))
        (Walk-suffix l h [] (x ∷ xs) r)

  pub Walk-first : (l : K.Links) (h p : Ptr) (xs : List Ptr) → Walk l h p xs → p ≡ first xs h
  Walk-first l h p [] w = w
  Walk-first l h p (x ∷ xs) w = w.0

  pub not_empty :
      (l : K.Links) (h : Ptr) (xs : Cells)
      → K.Ring l h (addrs xs)
      → 0 < length xs
      → K.list_empty l h ≡ false
  not_empty l h [] r i = absurd (omega arith)
  not_empty l h ((x, v) ∷ xs) r i = K.empty-cons l h x (addrs xs) r

  get_loop_lem :
      (fuel : ℕ) (s : Store K.Links) (h p : Ptr) (n : ℕ) (ret : Option ℤ) (xs : Cells)
      → Walk s.links h p (addrs xs)
      → Holds s.value xs
      → length xs < fuel
      → n < length xs
      → get_loop K fuel h p (pos n) ret s ≡ done (get_elem? (values xs) n) s
  unfolding get_loop
  get_loop_lem zero s h p n ret xs w a f i = absurd (omega arith)
  get_loop_lem (suc fuel) s h p n ret [] w a f i = absurd (omega arith)
  get_loop_lem (suc fuel) s h p zero ret ((x, v) ∷ xs) w a f i = ground arith
  get_loop_lem (suc fuel) s h p (suc n) ret ((x, v) ∷ xs) w a f i =
      ground (arith, get_loop_lem fuel s h (K.next s.links x) n (some v) xs w.2 a.1)

  -- With a negative index the loop never stops early.
  abbrev pub last_or : Option ℤ → List ℤ → Option ℤ
  last_or ret [] = ret
  last_or ret (v ∷ vs) = last_or (some v) vs

  get_loop_negative :
      (fuel : ℕ) (s : Store K.Links) (h p : Ptr) (n : ℕ) (ret : Option ℤ) (xs : Cells)
      → Walk s.links h p (addrs xs)
      → Holds s.value xs
      → length xs < fuel
      → get_loop K fuel h p (negsuc n) ret s ≡ done (last_or ret (values xs)) s
  unfolding get_loop
  get_loop_negative zero s h p n ret xs w a f = absurd (omega arith)
  get_loop_negative (suc fuel) s h p n ret [] w a f = ground arith
  get_loop_negative (suc fuel) s h p n ret ((x, v) ∷ xs) w a f =
      ground (arith, get_loop_negative fuel s h (K.next s.links x) (suc n) (some v) xs w.2 a.1)

  get_elem?-values : (xs : Cells) (n : ℕ) → length xs ≤ n → get_elem? (values xs) n ≡ none
  get_elem?-values [] n h = refl
  get_elem?-values ((p, v) ∷ xs) zero h = absurd (omega arith)
  get_elem?-values ((p, v) ∷ xs) (suc n) h = get_elem?-values xs n (omega arith)

  module _ (fuel : ℕ) (s : Store K.Links) (l : Handle) (xs : Cells) (is : IsList K s l.head xs)
      (counted : l.count ≡ length xs) (small : l.count < 2 ^ 31) (enough : length xs < fuel) where
    -- On a list whose count is right and below 2^31, `link_list_get` at an index from 0 up stores the value at that
    -- index, and stores nothing if there is none; it ends within one pass a node and one more, and
    -- changes nothing else.
    pub link_list_get_lem :
        (n : ℕ) → link_list_get K fuel l (pos n) s ≡ done (get_elem? (values xs) n) s
    unfolding link_list_get
    link_list_get_lem n = elim (dec_lt n (length xs)) [
      | yes inside ↦ ground (
        arith,
        occupied inside,
        get_loop_lem fuel s l.head (K.next s.links l.head) n none xs
            (Walk-ring s.links l.head (addrs xs) is.ring) is.held,
      )
      | no beyond ↦ ground (arith, get_elem?-values xs n)
    ]
      where
        occupied : n < length xs → K.list_empty s.links l.head ≡ false
        occupied h = not_empty s.links l.head xs is.ring (omega arith)

    -- `link_list_get` at a negative index, on a list that is not empty and whose count is right,
    -- stores the last value.
    pub link_list_get_negative :
        (n : ℕ)
        → 0 < length xs
        → link_list_get K fuel l (negsuc n) s ≡ done (last_or none (values xs)) s
    unfolding link_list_get
    link_list_get_negative n some_in = ground (
      arith,
      not_empty s.links l.head xs is.ring,
      get_loop_negative fuel s l.head (K.next s.links l.head) n none xs
          (Walk-ring s.links l.head (addrs xs) is.ring) is.held,
    )
