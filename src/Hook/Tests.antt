-- ===== src/Hook/Tests.antt =====
-- Two calls that overlap, and the theorems at that run.
use learn_k.Base.{
  zero, suc, Option, ℕ, refl, true, false, none, some, List, [], ◌∷◌, arith, ◌==◌, if◌then◌else◌,
}
use learn_k.Rbtree.Keys.{nat_order}
use learn_k.Rbtree.{leaf, node}
use learn_k.Hook.BuildPath.{Dentry, root, child}
use learn_k.Hook.Pool.{MountParams, State, Regs}
use learn_k.Hook.Session.{IsPool}
use learn_k.Hook.Handlers.{Event, enter, leave}

-- "/mnt/a"
abbrev mnt : Dentry
mnt = child (97 ∷ []) (child (109 ∷ 110 ∷ 116 ∷ []) root)

-- address 0 is `NULL`
abbrev texts : ℕ → Option (List ℕ)
texts zero = none
texts (suc a) = some (suc a ∷ [])

abbrev dentries : ℕ → Option Dentry
dentries zero = none
dentries (suc a) = some mnt

abbrev regs : ℕ → Regs
regs a = record { di = a; si = 5; dx = a; r10 = 1; r8 = 0; ax = 0 }

abbrev empty : State
empty = record {
  pool = record { root = leaf; live = λ _. false };
  locked = false;
  params = λ _. false;
  printed = [];
}

abbrev script : List Event
script =
    enter 1 2 (λ _. 0) 1000 (regs 65)
    ∷ enter 3 4 (λ _. 0) 2000 (regs 66)
    ∷ leave 1000 (regs 65)
    ∷ leave 2000 (regs 66)
    ∷ leave 3000 (regs 67)
    ∷ []

-- one call that has not returned
abbrev waiting : MountParams
waiting = record { addr = 9; dev_name = []; dir_name = []; fs_type = []; flags = 0 }

abbrev one : State
one = record {
  pool = record {
    root = node leaf (record { addr = 4; key = 7; value = waiting }) leaf;
    live = λ p. if p == 4 then true else false;
  };
  locked = false;
  params = λ p. p == 9;
  printed = [];
}

one-IsPool : IsPool one (λ k. if k == 7 then some waiting else none)
one-IsPool = record {
  maps = record {
    sorted = (tt, tt);
    apart = (refl, tt);
    owns = λ a. ground arith;
    reads = λ k. ground arith;
  };
  free = refl;
  live = λ k p h. ground arith;
  ended = λ k p h. ground arith;
  apart = λ k j p q h g e. ground arith;
}
