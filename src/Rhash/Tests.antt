-- ===== src/Rhash/Tests.antt =====
-- A table as a list, and a run in which all allocations and insertions succeed.
use learn_k.Base.{
  ℕ, zero, suc, ◌+◌, ◌<◌, ◌≡◌, refl, Bool, true, false, Option, some, List, [], ◌∷◌, arith, length,
}
use learn_k.Base.Int.{pos}
use learn_k.Kernel.{Returns}
use learn_k.Container.Links.{Ptr}
use learn_k.Rbtree.Entries.{without}
use learn_k.Rhash.{HashEntry, find_key, RhashApi, State, start_init}
use learn_k.Rhash.Filled.{Filled, Unused, Left, all_succeed, start_init-Left}

abbrev list : RhashApi
list = record {
  Rhashtable = List HashEntry;
  elements = λ t. t;
  init = [];
  insert_fast = λ e t. e ∷ t;
  remove_fast = without;
  lookup = λ t key. find_key key t;
  elements-init = refl;
  elements-insert = λ e t. ([], t, refl, refl);
  elements-remove = λ a t. refl;
  lookup_lem = λ t key. refl;
}

-- block `i + 1` for the key `i`
abbrev turns : ℕ → ℕ → List (Option Ptr × Bool)
turns zero i = []
turns (suc n) i = (some (i + 1), true) ∷ turns n (i + 1)

length-turns : (n i : ℕ) → length (turns n i) ≡ n
length-turns zero i = refl
length-turns (suc n) i = omega (arith, length-turns n (i + 1))

turns-Unused :
    (n i : ℕ) (s : State list)
    → ((a : Ptr) → i < a → s.live a ≡ false)
    → Unused list (turns n i) i s
unfolding Unused
turns-Unused zero i s f = tt
turns-Unused (suc n) i s f =
    (f (i + 1) (omega arith), turns-Unused n (i + 1) _ (λ a h. ground (arith, f a, h)))

abbrev empty : State list
empty = record { rht = []; live = λ a. false }

empty-Filled : Filled list 0 empty
empty-Filled = record {
  apart = tt;
  owns = λ a. refl;
  below = λ k h. absurd (omega (arith, h));
  above = λ k h. refl;
}

start_init-Left_example :
    Returns
      (λ ret v. (ret ≡ pos 0) × Left list (all_succeed list (turns 1000 0)) v.live)
      (start_init list (turns 1000 0) empty)
start_init-Left_example =
    start_init-Left list (turns 1000 0) empty (length-turns 1000 0) empty-Filled
      (turns-Unused 1000 0 empty (λ a h. refl))
