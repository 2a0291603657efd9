-- ===== src/Intervals/Leak.antt =====
-- What `interval_tree_test_init` prints and leaves behind.
use learn_k.Base.{
  ℕ, ◌<◌, ◌≡◌, refl, ap, ◌∙◌, subst, false, none, some, List, Bool-cases, inl, inr, [], ◌∷◌, arith,
  ◌==◌, ==_refl, if◌then◌else◌, length,
}
use learn_k.Base.Int.{ℤ, pos}
use learn_k.Kernel.{err, eagain, Run, done, blocked, oops, Returns, Returns-mono}
use learn_k.Container.Links.{Ptr, has, Distinct}
use learn_k.Rbtree.Entries.{holds, without}
use learn_k.Intervals.{NodeValue, overlapping, insert_by_start, IntervalApi, State, insert, remove}
use learn_k.Intervals.Overlap.{last_or}
use learn_k.Intervals.Laws.{IsTree, Removed, search_lem, insert-IsTree, remove_lem}
use learn_k.Intervals.Init.{
  Blocks, data_at, print_found, search_and_print, five_inserts, interval_tree_test_init,
}

abbrev span : Ptr → (start last value : ℕ) → NodeValue
span p start last value = record {
  addr = p;
  key = record { start = start; last = last };
  value = pos value;
}

-- A run that ends, ends with some value and state.
ended :
    {S A : Type 0} (P : A → S → Type 0) (m : Run S A)
    → Returns P m
    → (a : A) × (s : S) × (m ≡ done a s) × P a s
ended P (done a s) h = (a, s, refl, h)
ended P blocked h = absurd h
ended P oops h = absurd h

module _ (B : IntervalApi) where
  -- The tree is well formed and has the nodes `ns`.
  record Has (ns : List NodeValue) (s : State B) : Type 0 where
    tree : IsTree B s
    listed : B.nodes s.root ≡ ns

  insert-Has :
      (p : Ptr) (start last value : ℕ) (ns : List NodeValue) (s : State B)
      → Has ns s
      → holds p ns ≡ false
      → (p == 0) ≡ false
      → Has
          (insert_by_start (span p start last value) ns)
          (insert B (some p) start last (pos value) s)
  unfolding insert
  insert-Has p start last value ns s h f z = record {
    tree =
        insert-IsTree B p start last (pos value) s h.tree
          (h.tree.owns p ∙ ap (holds p) h.listed ∙ f) z;
    listed =
        B.nodes-insert (span p start last value) s.root
        ∙ ap (insert_by_start (span p start last value)) h.listed;
  }

  -- A search prints the data of the last node that overlaps.
  search_and_print_lem :
      (fuel : ℕ) (junk : Ptr) (start last : ℕ) (ns : List NodeValue) (s : State B)
      → Has ns s
      → length (overlapping start last ns) < fuel
      → search_and_print B fuel junk start last s
        ≡ print_found B (last_or junk (overlapping start last ns)) s
  unfolding search_and_print
  search_and_print_lem fuel junk start last ns s h f =
      rw (search_and_print, search_lem B fuel junk s.root start last h.tree.apart (rw h.listed f))
        (ap (λ l. print_found B (last_or junk (overlapping start last l)) s) h.listed)

  print_found_lem :
      (p : Ptr) (value : ℤ) (ns : List NodeValue) (s : State B)
      → Has ns s
      → (p == 0) ≡ false
      → data_at p ns ≡ some value
      → print_found B p s ≡ done (value ∷ []) s
  unfolding print_found
  print_found_lem p value ns s h z e = rw (z, h.listed, e) refl

  module _ (a b c d e : Ptr) (apart : Distinct (0 ∷ a ∷ b ∷ c ∷ d ∷ e ∷ [])) where
    abbrev blocks : Blocks
    blocks = record { a = some a; b = some b; c = some c; d = some d; e = some e }

    abbrev pub five : List NodeValue
    five = span a 0 10 1 ∷ span b 10 20 2 ∷ span c 20 30 3 ∷ span d 30 40 4 ∷ span e 40 50 5 ∷ []

    abbrev pub four : List NodeValue
    four = span a 0 10 1 ∷ span c 20 30 3 ∷ span d 30 40 4 ∷ span e 40 50 5 ∷ []

    five-Has : (s : State B) → Has [] s → Has five (five_inserts B blocks s)
    five-Has s h₀ =
        let h₁ = insert-Has a 0 10 1 [] s h₀ refl (ground (arith, apart)) in
        let h₂ = insert-Has b 10 20 2 _ _ h₁ (ground (arith, apart)) (ground (arith, apart)) in
        let h₃ = insert-Has c 20 30 3 _ _ h₂ (ground (arith, apart)) (ground (arith, apart)) in
        let h₄ = insert-Has d 30 40 4 _ _ h₃ (ground (arith, apart)) (ground (arith, apart)) in
        insert-Has e 40 50 5 _ _ h₄ (ground (arith, apart)) (ground (arith, apart))

    removed-Has :
        (fuel : ℕ) (junk : Ptr) (s : State B)
        → Has five s
        → has junk (a ∷ b ∷ c ∷ d ∷ e ∷ []) ≡ false
        → 2 < fuel
        → Returns (λ _ s'. Has four s') (remove B fuel junk 9 15 s)
    removed-Has fuel junk s h f enough =
        Returns-mono _ _ (remove B fuel junk 9 15 s)
          (λ _ s' r. record {
            tree = r.2;
            listed = r.0 ∙ ap (without b) h.listed ∙ ground (arith, apart);
          })
          (subst (λ l. Removed B (overlapping 9 15 l) junk s (remove B fuel junk 9 15 s)) h.listed
            (remove_lem B fuel junk 9 15 s h.tree
              (h.tree.owns junk ∙ ap (holds junk) h.listed ∙ ground (arith, f))
              (rw h.listed (omega (arith, enough)))))

    prints :
        (fuel : ℕ) (junk : ℕ → Ptr) (s : State B)
        → Has four s
        → 2 < fuel
        → (search_and_print B fuel (junk 1) 1 10 s ≡ done (pos 1 ∷ []) s)
          × (search_and_print B fuel (junk 2) 15 25 s ≡ done (pos 3 ∷ []) s)
          × (search_and_print B fuel (junk 3) 45 55 s ≡ done (pos 5 ∷ []) s)
          × (search_and_print B fuel (junk 4) 65 75 s ≡ print_found B (junk 4) s)
    prints fuel junk s h enough = (
      search_and_print_lem fuel (junk 1) 1 10 four s h (omega (arith, enough))
          ∙ print_found_lem a (pos 1) four s h (ground (arith, apart)) (ground (arith, ==_refl a)),
      search_and_print_lem fuel (junk 2) 15 25 four s h (omega (arith, enough))
          ∙ print_found_lem c (pos 3) four s h (ground (arith, apart))
              (ground (arith, apart, ==_refl c)),
      search_and_print_lem fuel (junk 3) 45 55 four s h (omega (arith, enough))
          ∙ print_found_lem e (pos 5) four s h (ground (arith, apart))
              (ground (arith, apart, ==_refl e)),
      search_and_print_lem fuel (junk 4) 65 75 four s h (omega (arith, enough)),
    )

    lost :
        (junk : Ptr) (s : State B)
        → Has four s
        → has junk (a ∷ b ∷ c ∷ d ∷ e ∷ []) ≡ false
        → print_found B junk s ≡ (if junk == 0 then done [] s else oops)
    unfolding print_found
    lost junk s h f =
        let nothing : data_at junk four ≡ none = ground (arith, f) in rw (h.listed, nothing) refl

    -- On an empty tree, with five blocks of memory that are apart, and if the uninitialised pointers
    -- hold the address of none of them, `interval_tree_test_init` prints 1, 3 and 5 and returns
    -- -EAGAIN, which unloads the module with four nodes in the tree and allocated; but if the pointer
    -- of the last search is not NULL, it is used, and that crashes.
    pub interval_tree_test_init-leaks :
        (fuel : ℕ) (junk : ℕ → Ptr) (s : State B)
        → IsTree B s
        → B.nodes s.root ≡ []
        → ((i : ℕ) → has (junk i) (a ∷ b ∷ c ∷ d ∷ e ∷ []) ≡ false)
        → 2 < fuel
        → (s' : State B) × (B.nodes s'.root ≡ four)
          × ((x : Ptr) → s'.live x ≡ holds x four)
          × (interval_tree_test_init B fuel junk blocks s
              ≡ (if junk 4 == 0 then done (pos 1 ∷ pos 3 ∷ pos 5 ∷ [], err eagain) s' else oops))
    unfolding interval_tree_test_init
    interval_tree_test_init-leaks fuel junk s is none_in apart' enough =
        let begun = five-Has s (record { tree = is; listed = none_in }) in
        let (_, s', e₀, h) =
          ended _ (remove B fuel (junk 0) 9 15 (five_inserts B blocks s))
            (removed-Has fuel (junk 0) _ begun (apart' 0) enough) in
        let p = prints fuel junk s' h enough in
        (
          s',
          h.listed,
          λ x. h.tree.owns x ∙ ap (holds x) h.listed,
          rw (e₀, p.0, p.1, p.2, p.3, lost (junk 4) s' h (apart' 4))
              (elim (Bool-cases (junk 4 == 0)) [ inl z ↦ rw z refl | inr n ↦ rw n refl ]),
        )
