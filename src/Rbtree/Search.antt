-- ===== src/Rbtree/Search.antt =====
-- `search_node` and the walk of `insert_node`, against the list of the entries.
use learn_k.Base.{
  ◌≡◌, refl, ap, sym, ◌∙◌, true, false, Option, none, some, ◌∷◌, ◌++◌, arith, Bool-cases, inl, inr,
}
use learn_k.Rbtree.Keys.{Order}
use learn_k.Rbtree.Entries.{
  Entry, Sorted, find, insert_in, Over-trans, Under-trans, Sorted-split, find_left, find_right,
  insert_left, insert_right,
}
use learn_k.Rbtree.{Tree, leaf, node, entries, search_node, place}

module _ {K V : Type 0} ⦃o : Order K⦄ where
  -- What a walk for `key` finds at a node.
  module _ (key : K) (l : Tree K V) (e : Entry K V) (r : Tree K V)
      (s : Sorted (entries (node l e r))) where
    find_below : o.lt key e.key ≡ true → find key (entries (node l e r)) ≡ find key (entries l)
    find_below h =
        find_left key (entries l) (e ∷ entries r)
          (h, Over-trans key e.key (entries r) h (Sorted-split (entries l) e (entries r) s).2)

    find_above :
        o.lt e.key key ≡ true
        → o.lt key e.key ≡ false
        → find key (entries (node l e r)) ≡ find key (entries r)
    find_above h g =
        find_right key (entries l) (e ∷ entries r)
          (Under-trans e.key key (entries l) h (Sorted-split (entries l) e (entries r) s).1)
        ∙ ground arith

    find_here :
        o.lt key e.key ≡ false → o.lt e.key key ≡ false → find key (entries (node l e r)) ≡ some e
    find_here g h =
        find_right key (entries l) (e ∷ entries r)
          (rw (o.lt_total key e.key g h) ((Sorted-split (entries l) e (entries r) s).1))
        ∙ ground arith

  -- `search_node` finds what the list has.
  pub search_node_lem :
      (key : K) (t : Tree K V) → Sorted (entries t) → search_node key t ≡ find key (entries t)
  unfolding search_node
  search_node_lem key leaf s = refl
  search_node_lem key (node l e r) s =
      let (a, b, c, d) = Sorted-split (entries l) e (entries r) s in
      ground (
        arith,
        search_node_lem key l a,
        search_node_lem key r d,
        find_below key l e r s,
        find_above key l e r s,
        find_here key l e r s,
      )

  -- What the walk for a new node shows.
  abbrev pub Placed : K → Tree K V → Option (Entry K V → Tree K V) → Type 0
  Placed key t none = (e : Entry K V) × (find key (entries t) ≡ some e)
  Placed key t (some hang) =
      (find key (entries t) ≡ none)
      × ((e : Entry K V) → e.key ≡ key → entries (hang e) ≡ insert_in e (entries t))

  place_below :
      (key : K) (l : Tree K V) (c : Entry K V) (r : Tree K V)
      → Sorted (entries (node l c r))
      → o.lt key c.key ≡ true
      → (q : Option (Entry K V → Tree K V)) → Placed key l q
      → Placed key (node l c r) (elim q [ none ↦ none | some hang ↦ some (λ e. node (hang e) c r) ])
  place_below key l c r s h none p = (p.0, find_below key l c r s h ∙ p.1)
  place_below key l c r s h (some hang) p = (
    find_below key l c r s h ∙ p.0,
    λ e k.
        ap (λ es. es ++ (c ∷ entries r)) (p.1 e k)
        ∙ sym (insert_left e (entries l) c (entries r) (ap (λ x. o.lt x c.key) k ∙ h)),
  )

  place_above :
      (key : K) (l : Tree K V) (c : Entry K V) (r : Tree K V)
      → Sorted (entries (node l c r))
      → o.lt c.key key ≡ true
      → o.lt key c.key ≡ false
      → (q : Option (Entry K V → Tree K V)) → Placed key r q
      → Placed key (node l c r) (elim q [ none ↦ none | some hang ↦ some (λ e. node l c (hang e)) ])
  place_above key l c r s h g none p = (p.0, find_above key l c r s h g ∙ p.1)
  place_above key l c r s h g (some hang) p = (
    find_above key l c r s h g ∙ p.0,
    λ e k.
        ap (λ es. entries l ++ (c ∷ es)) (p.1 e k)
        ∙ sym (
            insert_right e (entries l) (c ∷ entries r) (
              Under-trans c.key e.key (entries l) (ap (o.lt c.key) k ∙ h)
                (Sorted-split (entries l) c (entries r) s).1)
            ∙ ap (λ es. entries l ++ es) (passes e k)),
  )
    where
      passes :
          (e : Entry K V) → e.key ≡ key → insert_in e (c ∷ entries r) ≡ c ∷ insert_in e (entries r)
      passes e k = ground arith

  pub place_lem : (key : K) (t : Tree K V) → Sorted (entries t) → Placed key t (place key t)
  unfolding place
  place_lem key leaf s = (refl, λ e k. refl)
  place_lem key (node l c r) s =
      let (a, _, _, d) = Sorted-split (entries l) c (entries r) s in
      let left = place_lem key l a in
      let right = place_lem key r d in
      elim (Bool-cases (o.lt key c.key)) [
        | inl below ↦ rw below (place_below key l c r s below (place key l) left)
        | inr not_below ↦ elim (Bool-cases (o.lt c.key key)) [
          | inl above ↦
              rw (not_below, above) (place_above key l c r s above not_below (place key r) right)
          | inr not_above ↦ rw (not_below, not_above) (c, find_here key l c r s not_below not_above)
        ]
      ]
