-- ===== src/Intervals/Tests.antt =====
-- The tree that `interval_tree_test_init` builds, with an allocator that gives 1, 2, 3, 4 and 5.
use learn_k.Base.{ℕ, ◌≡◌, refl, true, false, some, [], ◌∷◌, arith, ◌==◌, if◌then◌else◌}
use learn_k.Base.Int.{pos}
use learn_k.Kernel.{Returns, done, err, eagain}
use learn_k.Container.Links.{Ptr, Distinct}
use learn_k.Rbtree.Entries.{without, holds}
use learn_k.Intervals.{NodeValue, State, search, insert, remove}
use learn_k.Intervals.Sorted.{sorted}
use learn_k.Intervals.Init.{interval_tree_test_init}
use learn_k.Intervals.Leak.{four, interval_tree_test_init-leaks}
use learn_k.Intervals.Laws.{IsTree, search_lem, insert-IsTree, remove_lem}

abbrev empty : State sorted
empty = record { root = []; live = λ _. false }

empty-IsTree : IsTree sorted empty
empty-IsTree = record { apart = tt; owns = λ a. refl; non_null = refl }

abbrev value : Ptr → ℕ → ℕ → ℕ → NodeValue
value a start last n = record {
  addr = a;
  key = record { start = start; last = last };
  value = pos n;
}

abbrev five : State sorted
five = record {
  root =
      value 1 0 10 1 ∷ value 2 10 20 2 ∷ value 3 20 30 3 ∷ value 4 30 40 4 ∷ value 5 40 50 5 ∷ [];
  live = λ a.
      if a == 1
      then true
      else if a == 2
      then true
      else if a == 3
      then true
      else if a == 4
      then true
      else a == 5;
}

five-IsTree : IsTree sorted five
five-IsTree = record {
  apart = (refl, (refl, (refl, (refl, (refl, tt)))));
  owns = λ a. ground arith;
  non_null = refl;
}

inserts :
    (insert sorted (some 5) 40 50 (pos 5) (
      insert sorted (some 1) 0 10 (pos 1) (
        insert sorted (some 3) 20 30 (pos 3) (
          insert sorted (some 2) 10 20 (pos 2) (insert sorted (some 4) 30 40 (pos 4) empty))))).root
    ≡ five.root
unfolding insert
inserts = refl

-- nothing overlaps, and the pointer that was not initialised is returned
search_none : search sorted 1 77 five.root 65 75 ≡ some 77
search_none = search_lem sorted 1 77 five.root 65 75 five-IsTree.apart (omega arith)

six : IsTree sorted (insert sorted (some 6) 0 60 (pos 6) five)
six = insert-IsTree sorted 6 0 60 (pos 6) five five-IsTree refl refl

remove_lem_example :
    Returns
      (λ _ s'. (s'.root ≡ without 2 five.root) × (s'.live 2 ≡ false) × IsTree sorted s')
      (remove sorted 3 77 9 15 five)
remove_lem_example = remove_lem sorted 3 77 9 15 five five-IsTree refl (omega arith)

abbrev apart : Distinct (0 ∷ 1 ∷ 2 ∷ 3 ∷ 4 ∷ 5 ∷ [])
apart = (refl, (refl, (refl, (refl, (refl, (refl, tt))))))

interval_tree_test_init-leaks_example :
    (s' : State sorted) × (s'.root ≡ four sorted 1 2 3 4 5 apart)
    × ((x : Ptr) → s'.live x ≡ holds x (four sorted 1 2 3 4 5 apart))
    × (interval_tree_test_init sorted 3
          (λ _. 0)
          (record { a = some 1; b = some 2; c = some 3; d = some 4; e = some 5 })
          empty
        ≡ done (pos 1 ∷ pos 3 ∷ pos 5 ∷ [], err eagain) s')
interval_tree_test_init-leaks_example =
    interval_tree_test_init-leaks sorted 1 2 3 4 5 apart 3 (λ _. 0) empty empty-IsTree refl
      (λ i. refl) (omega arith)
