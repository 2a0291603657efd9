-- ===== src/Hashmap/Tests.antt =====
-- A table as a function, and runs over it.
use learn_k.Base.{
  ℕ, ◌%◌, ◌<◌, ◌≡◌, refl, false, none, some, List, [], ◌∷◌, arith, ◌==◌, if◌then◌else◌,
}
use learn_k.Base.Int.{ℤ, pos, negsuc}
use learn_k.Kernel.{Returns, val}
use learn_k.Container.Links.{Ptr}
use learn_k.Rbtree.Entries.{without}
use learn_k.Hashmap.{
  MyData, first_with, HashApi, State, add_element, get_element, remove_key, remove_element,
}
use learn_k.Hashmap.Chains.{names}
use learn_k.Hashmap.Init.{my_init}
use learn_k.Hashmap.Printed.{my_init-frees}
use learn_k.Hashmap.Laws.{IsTable}
use learn_k.Hashmap.Service.{
  Op, add, get, remove, after_op, answers, session, Allocates, session-stacks,
}

abbrev by_remainder : ℤ → ℕ
by_remainder (pos n) = n % 128
by_remainder (negsuc n) = n % 128

by_remainder-below : (key : ℤ) → by_remainder key < 128
by_remainder-below key = ground arith

abbrev chains : HashApi
chains = record {
  Hashtable = ℕ → List MyData;
  chain = λ t b. t b;
  hash = by_remainder;
  hash_init = λ b. [];
  hash_add = λ e t b. if b == by_remainder e.key then e ∷ t b else t b;
  hash_del = λ a t b. without a (t b);
  hash-below = by_remainder-below;
  chain-init = λ b. refl;
  chain-add = λ e t b. refl;
  chain-del = λ a t b. refl;
}

abbrev empty : State chains
empty = record { ht = λ b. []; live = λ a. false }

empty-IsTable : IsTable chains empty (λ _. [])
empty-IsTable = record {
  reads = λ key. refl;
  inner = λ b. tt;
  owns = λ a b h. h;
  apart = λ a b c h k. absurd (ground arith);
  owned = λ a h. absurd (ground arith);
}

-- Keys 1 and 129 share a chain.
abbrev ops : List Op
ops =
    add 10 (pos 1) 70
    ∷ add 11 (pos 129) 71
    ∷ add 12 (pos 1) 72
    ∷ get (pos 1)
    ∷ remove (pos 1)
    ∷ get (pos 1)
    ∷ get (pos 129)
    ∷ get (pos 2)
    ∷ []

ops-Allocates : Allocates chains ops empty
unfolding Allocates add_element remove_key get_element first_with remove_element
ops-Allocates = (refl, (refl, (refl, tt)))

session-stacks_example :
    Returns (λ rs _. rs ≡ some 72 ∷ some 70 ∷ some 71 ∷ none ∷ []) (session chains ops empty)
unfolding answers after_op
session-stacks_example = session-stacks chains ops empty (λ _. []) empty-IsTable ops-Allocates

abbrev one : State chains
one = record {
  ht = λ b. if b == 5 then record { addr = 9; key = pos 5; value = 70 } ∷ [] else [];
  live = λ a. a == 9;
}

one-IsTable : IsTable chains one (λ key. names key (one.ht (by_remainder key)))
one-IsTable = record {
  reads = λ key. refl;
  inner = λ b. ground arith;
  owns = λ a b h. ground arith;
  apart = λ a b c h k. ground arith;
  owned = λ a h. (5, omega arith, ground arith);
}

my_init_run :
    Returns
      (λ out s'.
        (out ≡ (((pos 1, 70) ∷ (pos 2, 71) ∷ [], (pos 2, 71) ∷ []), val 0))
        × ((a : Ptr) → s'.live a ≡ false))
      (my_init chains (some 10) (some 11) 70 71 (record { ht = λ b. []; live = λ _. false }))
my_init_run = my_init-frees chains 10 11 70 71 refl (λ b. [])
