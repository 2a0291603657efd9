-- ===== src/Hashmap/Init.antt =====
-- `print_hash_table` and `my_init` of src/map/map.c.
use learn_k.Base.{ℕ, zero, suc, ◌+◌, Option, List, [], ◌∷◌, ◌++◌}
use learn_k.Base.Int.{ℤ, pos}
use learn_k.Kernel.{Ret, val, Run, done, ◌>>=◌, ◌>>◌}
use learn_k.Container.Links.{Ptr}
use learn_k.Hashmap.{MyData, HashApi, State, add_element, remove_key, clear}

-- a line of the log: a key and the address of its name
abbrev pub Line : Type 0
Line = ℤ × ℕ

abbrev pub lines_of : List MyData → List Line
lines_of [] = []
lines_of (ptr ∷ rest) = (ptr.key, ptr.value) ∷ lines_of rest

module _ (B : HashApi) where
  -- the chains from `bkt` on
  unfoldable pub print_from : ℕ → ℕ → B.Hashtable → List Line
  print_from zero bkt t = []
  print_from (suc n) bkt t = lines_of (B.chain t bkt) ++ print_from n (bkt + 1) t

  unfoldable pub print_hash_table : State B → List Line
  unfolding print_from
  print_hash_table s = print_from 128 0 s.ht

  -- `john` and `bob` are the addresses of the two names, and the first two arguments what `kmalloc`
  -- answers. The result is what each of the two calls of `print_hash_table` prints.
  unfoldable pub my_init :
      Option Ptr
      → Option Ptr
      → (john bob : ℕ) → State B
      → Run (State B) ((List Line × List Line) × Ret)
  my_init p q john bob s =
      let filled =
        add_element B q (pos 2) bob
          (add_element B p (pos 1) john (record s { ht = B.hash_init })) in
      (do
        remove_key B (pos 1)
        second ← λ t. done (print_hash_table t) t
        clear B
        λ t. done ((print_hash_table filled, second), val 0) t)
        filled
