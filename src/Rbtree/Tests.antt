-- ===== src/Rbtree/Tests.antt =====
-- A run over a tree that is not balanced, and the theorems at it.
use learn_k.Base.{
  ℕ, ◌≡◌, refl, true, false, ◌&&◌, not, none, some, List, [], ◌∷◌, arith, ◌==◌, if◌then◌else◌,
}
use learn_k.Base.Int.{ℤ, pos, negsuc}
use learn_k.Kernel.{eexist, val, err, Returns}
use learn_k.Rbtree.Keys.{Order, int_order}
use learn_k.Rbtree.{
  leaf, node, State, search_node, place, kfree, insert_entry, remove_entry, insert_node,
  delete_node, entries, end_exit,
}
use learn_k.Rbtree.Spine.{spine}
use learn_k.Rbtree.Init.{Blocks, start_init}
use learn_k.Rbtree.Printed.{printed, unloaded, start_init-end_exit}
use learn_k.Rbtree.Laws.{IsMap}
use learn_k.Rbtree.Service.{
  Op, insert, search, delete, status, found, deleted, answer, answers, call, session, Allocates,
  session-answers,
}

abbrev empty : State ℤ (List ℕ)
empty = record { root = leaf; live = λ _. false }

empty-IsMap : IsMap empty (λ _. none)
empty-IsMap = record { sorted = tt; apart = tt; owns = λ a. refl; reads = λ k. refl }

-- the address of a freed entry is used again
abbrev ops : List Op
ops =
    insert 1 (pos 5) (97 ∷ [])
    ∷ insert 2 (negsuc 2) (98 ∷ [])
    ∷ insert 3 (pos 5) (99 ∷ [])
    ∷ search (pos 5)
    ∷ delete (pos 5)
    ∷ insert 1 (pos 9) (100 ∷ [])
    ∷ search (pos 5)
    ∷ search (pos 9)
    ∷ []

ops-Allocates : Allocates spine ops empty
unfolding Allocates call insert_node delete_node insert_entry remove_entry search_node place kfree
ops-Allocates = (refl, (refl, (refl, (tt, (tt, (refl, (tt, (tt, tt))))))))

session-answers_example :
    Returns
      (λ rs _.
        rs
        ≡ status (val 0)
          ∷ status (val 0)
          ∷ status (err eexist)
          ∷ found (some (97 ∷ []))
          ∷ deleted
          ∷ status (val 0)
          ∷ found none
          ∷ found (some (100 ∷ []))
          ∷ [])
      (session spine ops empty)
unfolding answers answer
session-answers_example = session-answers spine ops empty (λ _. none) empty-IsMap ops-Allocates

abbrev one : State ℤ (List ℕ)
one = record {
  root = node leaf (record { addr = 4; key = pos 7; value = [] }) leaf;
  live = λ p. if p == 4 then true else false;
}

one-IsMap : IsMap one (λ j.
    if not (Order.lt int_order j (pos 7)) && not (Order.lt int_order (pos 7) j)
    then some []
    else none)
one-IsMap = record {
  sorted = (tt, tt);
  apart = (refl, tt);
  owns = λ a. ground arith;
  reads = λ k. ground arith;
}

abbrev blocks : Blocks
blocks = record { a = 1; b = 2; c = 3; d = 4; e = 5; f = 6 }

start_init_run :
    Returns
      (λ out s.
        (out ≡ (printed, val 0))
        × Returns
            (λ _ s'. (entries s'.root ≡ []) × ((a : ℕ) → s'.live a ≡ false))
            (end_exit spine 7 s))
      (start_init spine 7 blocks unloaded)
start_init_run =
    start_init-end_exit spine 7 blocks (refl, (refl, (refl, (refl, (refl, (refl, tt))))))
      (omega arith)
