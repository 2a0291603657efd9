-- ===== src/Hashmap/Printed.antt =====
-- What `my_init` of src/map/map.c prints, and that it frees all it takes.
use learn_k.Base.{
  ℕ, zero, suc, ◌+◌, ◌≡◌, refl, Bool, true, false, ◌&&◌, some, List, [], ◌∷◌, arith, leb, ltb, ◌==◌,
  if◌then◌else◌,
}
use learn_k.Base.Int.{pos}
use learn_k.Kernel.{val, done, Returns, Returns-done, Returns-bind}
use learn_k.Container.Links.{Ptr}
use learn_k.Rbtree.{set_live}
use learn_k.Hashmap.{
  MyData, HashApi, State, first_with, add_element, get_element, remove_element, remove_key, clear,
}
use learn_k.Hashmap.Laws.{IsTable, push_name, add_element-IsTable, remove_key-IsTable}
use learn_k.Hashmap.Service.{clear_lem}
use learn_k.Hashmap.Init.{Line, print_from, print_hash_table, my_init}

abbrev within : ℕ → ℕ → ℕ → Bool
within lo n i = leb lo i && ltb i (lo + n)

-- two elements in the order in which the table is walked
abbrev pub in_order : (h k : ℕ) → (x y : Line) → List Line
in_order h k x y = if ltb h k then x ∷ y ∷ [] else y ∷ x ∷ []

-- those of the two that are in the `n` chains from `lo` on
abbrev seen : (lo n h k : ℕ) → (x y : Line) → List Line
seen lo n h k x y =
    if within lo n h
    then (if within lo n k then in_order h k x y else x ∷ [])
    else (if within lo n k then y ∷ [] else [])

abbrev two_chains : (h k : ℕ) → (x y : MyData) → ℕ → List MyData
two_chains h k x y b =
    if b == k then y ∷ (if b == h then x ∷ [] else []) else (if b == h then x ∷ [] else [])

line_of : MyData → Line
line_of e = (e.key, e.value)

module _ (B : HashApi) where
  print_two :
      (h k : ℕ) (x y : MyData) (t : B.Hashtable)
      → ((b : ℕ) → B.chain t b ≡ two_chains h k x y b)
      → (n lo : ℕ) → print_from B n lo t ≡ seen lo n h k (x.key, x.value) (y.key, y.value)
  unfolding print_from
  print_two h k x y t c zero lo = ground arith
  print_two h k x y t c (suc n) lo = ground (arith, c lo, print_two h k x y t c n (lo + 1))

  print_one :
      (k : ℕ) (y : MyData) (t : B.Hashtable)
      → ((b : ℕ) → B.chain t b ≡ (if b == k then y ∷ [] else []))
      → (n lo : ℕ) → print_from B n lo t ≡ (if within lo n k then (y.key, y.value) ∷ [] else [])
  unfolding print_from
  print_one k y t c zero lo = ground arith
  print_one k y t c (suc n) lo = ground (arith, c lo, print_one k y t c n (lo + 1))

  module _ (p q : Ptr) (john bob : ℕ) (apart : (p == q) ≡ false) where
    -- the two elements, and the table that has both
    abbrev x : MyData
    x = record { addr = p; key = pos 1; value = john }

    abbrev y : MyData
    y = record { addr = q; key = pos 2; value = bob }

    abbrev fresh : State B
    fresh = record { ht = B.hash_init; live = λ _. false }

    unfoldable filled : State B
    filled = record {
      ht = B.hash_add y (B.hash_add x B.hash_init);
      live = set_live (set_live (λ _. false) p true) q true;
    }

    unfoldable left : State B
    left = record { ht = B.hash_del p filled.ht; live = set_live filled.live p false }

    filled_lem :
        add_element B (some q) (pos 2) bob (add_element B (some p) (pos 1) john fresh) ≡ filled
    unfolding filled add_element
    filled_lem = refl

    fresh-IsTable : IsTable B fresh (λ _. [])
    fresh-IsTable = record {
      reads = λ key. ground (arith, B.chain-init (B.hash key));
      inner = λ b. rw (B.chain-init b) tt;
      owns = λ a b h. absurd (ground (arith, B.chain-init b, h));
      apart = λ a b c h k. absurd (ground (arith, B.chain-init b, h));
      owned = λ a h. absurd (ground (arith, h));
    }

    filled-IsTable : IsTable B filled (push_name (push_name (λ _. []) (pos 1) john) (pos 2) bob)
    unfolding filled add_element
    filled-IsTable =
        add_element-IsTable B _ _ (add_element-IsTable B fresh _ fresh-IsTable p (pos 1) john refl)
          q (pos 2) bob (ground (arith, apart))

    chain-filled :
        (b : ℕ) → B.chain filled.ht b ≡ two_chains (B.hash (pos 1)) (B.hash (pos 2)) x y b
    unfolding filled
    chain-filled b = ground (
      arith,
      B.chain-add y (B.hash_add x B.hash_init) b,
      B.chain-add x B.hash_init b,
      B.chain-init b,
    )

    chain-left : (b : ℕ) → B.chain left.ht b ≡ (if b == B.hash (pos 2) then y ∷ [] else [])
    unfolding left
    chain-left b = ground (arith, B.chain-del p filled.ht b, chain-filled b, apart)

    found : get_element B (pos 1) filled ≡ some x
    unfolding get_element first_with
    found = ground (arith, chain-filled (B.hash (pos 1)))

    live-filled : filled.live p ≡ true
    unfolding filled
    live-filled = ground (arith, apart)

    remove-filled : remove_key B (pos 1) filled ≡ done tt left
    unfolding left remove_key remove_element
    remove-filled = rw (remove_key, found, live-filled) refl

    printed_first :
        print_hash_table B filled
        ≡ in_order (B.hash (pos 1)) (B.hash (pos 2)) (pos 1, john) (pos 2, bob)
    unfolding print_hash_table
    printed_first = ground (
      arith,
      print_two (B.hash (pos 1)) (B.hash (pos 2)) x y filled.ht chain-filled 128 0,
      B.hash-below (pos 1),
      B.hash-below (pos 2),
    )

    printed_second : print_hash_table B left ≡ (pos 2, bob) ∷ []
    unfolding print_hash_table
    printed_second =
        ground (arith, print_one (B.hash (pos 2)) y left.ht chain-left 128 0, B.hash-below (pos 2))

    -- With two blocks of memory that are apart, `my_init` ends and returns 0 with nothing allocated. It
    -- prints both elements, in the order of the chains that their keys are in, and the newer first if
    -- they share one, and then the second element.
    pub my_init-frees :
        (before : B.Hashtable)
        → Returns
            (λ out s'.
              (out ≡ (
                (
                  in_order (B.hash (pos 1)) (B.hash (pos 2)) (pos 1, john) (pos 2, bob),
                  (pos 2, bob) ∷ [],
                ),
                val 0,
              ))
              × ((a : Ptr) → s'.live a ≡ false))
            (my_init B (some p) (some q) john bob (record { ht = before; live = λ _. false }))
    unfolding my_init
    my_init-frees before =
        rw (filled_lem, remove-filled, printed_first, printed_second)
          (Returns-bind _ _ (clear B left) _
            (clear_lem B left _
              (Returns-done _ remove-filled (remove_key-IsTable B filled _ filled-IsTable (pos 1))))
            λ _ s' h. (refl, h.1))
