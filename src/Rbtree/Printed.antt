-- ===== src/Rbtree/Printed.antt =====
-- What `start_init` of src/rbtree/main.c prints, and that `end_exit` frees what it took.
use learn_k.Base.{
  ℕ, zero, suc, ◌<◌, ◌≡◌, refl, ap, sym, ◌∙◌, subst, true, false, Option, none, some, List, [], ◌∷◌,
  ◌++◌, arith, length,
}
use mathlib.Core.List.{append_assoc}
use learn_k.Base.Int.{ℤ, pos}
use learn_k.Kernel.{eexist, val, err, done, Returns, Returns-bind}
use learn_k.Container.Links.{Ptr, Distinct}
use learn_k.Rbtree.Keys.{int_order}
use learn_k.Rbtree.Entries.{
  Entry, holds, Apart, Sorted, find, insert_in, Sorted-insert_in, holds-insert_in, Apart-insert_in,
}
use learn_k.Rbtree.{
  Tree, leaf, entries, head, RbApi, State, set_live, place, insert_entry, insert_node, end_exit,
}
use learn_k.Rbtree.Search.{Placed, place_lem}
use learn_k.Rbtree.Laws.{clear_lem}
use learn_k.Rbtree.Init.{
  Line, line_of, entry_text, Blocks, print_from, print_all_entries, start_init,
}

abbrev pub lines_of : List (Entry ℤ (List ℕ)) → List Line
lines_of [] = []
lines_of (e ∷ es) = line_of e ∷ lines_of es

module _ (B : RbApi ℤ (List ℕ)) where
  print_from_lem :
      (t : Tree ℤ (List ℕ)) (xs before : List (Entry ℤ (List ℕ))) (fuel : ℕ)
      → Apart (entries t)
      → entries t ≡ before ++ xs
      → length xs < fuel
      → print_from B fuel t (head xs) ≡ some (lines_of xs)
  unfolding print_from
  print_from_lem t xs before zero d e f = absurd (omega arith)
  print_from_lem t [] before (suc fuel) d e f = refl
  print_from_lem t (x ∷ xs) before (suc fuel) d e f =
      rw
        (
          B.rb_next_lem t before x xs d e,
          print_from_lem t xs (before ++ (x ∷ [])) fuel d
              (e ∙ sym (append_assoc before (x ∷ []) xs)) (omega arith),
        )
        refl

  -- Every entry is printed once, in the order of the tree.
  print_all_entries_lem :
      (fuel : ℕ) (s : State ℤ (List ℕ))
      → Apart (entries s.root)
      → length (entries s.root) < fuel
      → print_all_entries B fuel s ≡ done (lines_of (entries s.root)) s
  unfolding print_all_entries
  print_all_entries_lem fuel s d f =
      rw
        (
          print_all_entries,
          B.rb_first_lem s.root,
          print_from_lem s.root (entries s.root) [] fuel d refl f,
        )
        refl

  -- The tree has the entries `es`, in order, and they are what is allocated.
  record Built (es : List (Entry ℤ (List ℕ))) (s : State ℤ (List ℕ)) : Type 0 where
    listed : entries s.root ≡ es
    sorted : Sorted es
    apart : Apart es
    owns : (a : Ptr) → s.live a ≡ holds a es

  module _ (p : Ptr) (key : ℤ) (text : List ℕ) (es : List (Entry ℤ (List ℕ)))
      (s : State ℤ (List ℕ)) where
    built :
        Built es s
        → find key es ≡ none
        → holds p es ≡ false
        → (q : Option (Entry ℤ (List ℕ) → Tree ℤ (List ℕ))) → Placed key s.root q
        → Returns
            (λ _ s'. Built (insert_in (record { addr = p; key = key; value = text }) es) s')
            (elim q [
              | none ↦ done (err eexist) s
              | some hang ↦ done (val 0) (record {
                root = B.rb_insert_color p (hang (record { addr = p; key = key; value = text }));
                live = set_live s.live p true;
              })
            ])
    built b n f none pl = absurd (ground (arith, pl.1, n, ap (find key) b.listed))
    built b n f (some hang) pl = record {
      listed = B.entries-rb_insert_color p (hang _) ∙ pl.1 _ refl ∙ ap (insert_in _) b.listed;
      sorted = Sorted-insert_in _ es n b.sorted;
      apart = Apart-insert_in _ es f b.apart;
      owns = λ a.
          ground
            (arith, holds-insert_in a (record { addr = p; key = key; value = text }) es, b.owns a);
    }

    insert_entry-Built :
        Built es s
        → find key es ≡ none
        → holds p es ≡ false
        → Returns
            (λ _ s'. Built (insert_in (record { addr = p; key = key; value = text }) es) s')
            (insert_entry B (some p) key text s)
    unfolding insert_entry
    insert_entry-Built b n f =
        built b n f (place key s.root) (place_lem key s.root (subst Sorted (sym b.listed) b.sorted))

abbrev entry : Ptr → ℕ → ℕ → Entry ℤ (List ℕ)
entry p key digit = record { addr = p; key = pos key; value = entry_text digit }

-- what is in the tree after each insertion of `start_init`, and the address of the next
abbrev after_one : Blocks → List (Entry ℤ (List ℕ))
after_one p = entry p.a 100 49 ∷ []

abbrev after_two : Blocks → List (Entry ℤ (List ℕ))
after_two p = entry p.a 100 49 ∷ entry p.b 200 50 ∷ []

abbrev after_three : Blocks → List (Entry ℤ (List ℕ))
after_three p = entry p.a 100 49 ∷ entry p.c 150 51 ∷ entry p.b 200 50 ∷ []

abbrev after_four : Blocks → List (Entry ℤ (List ℕ))
after_four p = entry p.a 100 49 ∷ entry p.c 150 51 ∷ entry p.b 200 50 ∷ entry p.d 220 52 ∷ []

abbrev after_five : Blocks → List (Entry ℤ (List ℕ))
after_five p =
    entry p.a 100 49
    ∷ entry p.c 150 51
    ∷ entry p.b 200 50
    ∷ entry p.d 220 52
    ∷ entry p.e 300 53
    ∷ []

abbrev pub printed : List Line
printed =
    (pos 100, entry_text 49)
    ∷ (pos 110, entry_text 54)
    ∷ (pos 150, entry_text 51)
    ∷ (pos 200, entry_text 50)
    ∷ (pos 220, entry_text 52)
    ∷ (pos 300, entry_text 53)
    ∷ []

abbrev pub unloaded : State ℤ (List ℕ)
unloaded = record { root = leaf; live = λ _. false }

-- With six blocks of memory that are apart, `start_init` ends, prints the six entries once each, by
-- ascending keys, and returns 0; `end_exit` ends after it, with no entry in the tree and none
-- allocated.
pub start_init-end_exit :
    (B : RbApi ℤ (List ℕ)) (fuel : ℕ) (p : Blocks)
    → Distinct (p.a ∷ p.b ∷ p.c ∷ p.d ∷ p.e ∷ p.f ∷ [])
    → 6 < fuel
    → Returns
        (λ out s.
          (out ≡ (printed, val 0))
          × Returns
              (λ _ s'. (entries s'.root ≡ []) × ((a : Ptr) → s'.live a ≡ false))
              (end_exit B fuel s))
        (start_init B fuel p unloaded)
unfolding start_init insert_node end_exit
start_init-end_exit B fuel p d enough =
    Returns-bind _ _ (insert_entry B (some p.a) (pos 100) (entry_text 49) unloaded) _
      (insert_entry-Built B p.a (pos 100) (entry_text 49) [] unloaded
        (record { listed = refl; sorted = tt; apart = tt; owns = λ a. refl }) refl refl)
      λ _ s₁ b₁.
        Returns-bind _ _ (insert_entry B (some p.b) (pos 200) (entry_text 50) s₁) _
          (insert_entry-Built B p.b (pos 200) (entry_text 50) (after_one p) s₁ b₁ refl
            (ground (arith, d)))
          λ _ s₂ b₂.
            Returns-bind _ _ (insert_entry B (some p.c) (pos 150) (entry_text 51) s₂) _
              (insert_entry-Built B p.c (pos 150) (entry_text 51) (after_two p) s₂ b₂ refl
                (ground (arith, d)))
              λ _ s₃ b₃.
                Returns-bind _ _ (insert_entry B (some p.d) (pos 220) (entry_text 52) s₃) _
                  (insert_entry-Built B p.d (pos 220) (entry_text 52) (after_three p) s₃ b₃ refl
                    (ground (arith, d)))
                  λ _ s₄ b₄.
                    Returns-bind _ _ (insert_entry B (some p.e) (pos 300) (entry_text 53) s₄) _
                      (insert_entry-Built B p.e (pos 300) (entry_text 53) (after_four p) s₄ b₄ refl
                        (ground (arith, d)))
                      λ _ s₅ b₅.
                        Returns-bind _ _ (insert_entry B (some p.f) (pos 110) (entry_text 54) s₅) _
                          (insert_entry-Built B p.f (pos 110) (entry_text 54) (after_five p) s₅ b₅
                            refl (ground (arith, d)))
                          λ _ s₆ b₆.
                            rw
                              (print_all_entries_lem B fuel s₆
                                (subst Apart (sym b₆.listed) b₆.apart)
                                (rw b₆.listed (omega (arith, enough))))
                              (
                                ap (λ es. (lines_of es, val 0)) b₆.listed,
                                clear_lem B _ fuel s₆ b₆.listed b₆.apart b₆.owns
                                    (omega (arith, enough)),
                              )
