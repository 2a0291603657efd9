-- ===== src/Intervals/Init.antt =====
-- `interval_tree_test_init` of src/rbtree/interval_tree.c.
use learn_k.Base.{ℕ, Option, none, some, List, [], ◌∷◌, ◌++◌, ◌==◌, if◌then◌else◌}
use learn_k.Base.Int.{ℤ, pos}
use learn_k.Kernel.{Ret, err, eagain, Run, done, blocked, oops, ◌>>=◌, ◌>>◌}
use learn_k.Container.Links.{Ptr}
use learn_k.Intervals.{NodeValue, IntervalApi, State, search, insert, remove}

-- What `kmalloc` answers to each insertion.
pub record Blocks : Type 0 where
  pub a : Option Ptr
  pub b : Option Ptr
  pub c : Option Ptr
  pub d : Option Ptr
  pub e : Option Ptr

-- the `data` of the node at an address
abbrev pub data_at : Ptr → List NodeValue → Option ℤ
data_at p [] = none
data_at p (n ∷ ns) = if n.addr == p then some n.value else data_at p ns

module _ (B : IntervalApi) where
  -- What a pointer that is not NULL leads to is printed.
  unfoldable pub print_found : Ptr → State B → Run (State B) (List ℤ)
  print_found nv s =
      if nv == 0
      then done [] s
      else elim (data_at nv (B.nodes s.root)) [ none ↦ oops | some value ↦ done (value ∷ []) s ]

  unfoldable pub search_and_print : ℕ → Ptr → (start last : ℕ) → State B → Run (State B) (List ℤ)
  unfolding print_found
  search_and_print fuel junk start last s = elim (search B fuel junk s.root start last) [
    | none ↦ blocked
    | some nv ↦ print_found nv s
  ]

  abbrev pub five_inserts : Blocks → State B → State B
  five_inserts p s = insert B p.e 40 50 (pos 5) (
      insert B p.d 30 40 (pos 4)
        (insert B p.c 20 30 (pos 3) (insert B p.b 10 20 (pos 2) (insert B p.a 0 10 (pos 1) s))))

  -- `junk i` is what the uninitialised pointer of the `i`th search holds.
  unfoldable pub interval_tree_test_init :
      ℕ → (ℕ → Ptr) → Blocks → State B → Run (State B) (List ℤ × Ret)
  unfolding search_and_print
  interval_tree_test_init fuel junk p s =
      (do
        remove B fuel (junk 0) 9 15
        nv1 ← search_and_print fuel (junk 1) 1 10
        nv2 ← search_and_print fuel (junk 2) 15 25
        nv3 ← search_and_print fuel (junk 3) 45 55
        nv4 ← search_and_print fuel (junk 4) 65 75
        λ t. done (nv1 ++ (nv2 ++ (nv3 ++ nv4)), err eagain) t)
        (five_inserts p s)
