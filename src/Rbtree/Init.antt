-- ===== src/Rbtree/Init.antt =====
-- `print_all_entries` and `start_init` of src/rbtree/main.c.
use learn_k.Base.{ℕ, zero, suc, Option, none, some, List, [], ◌∷◌}
use learn_k.Base.Int.{ℤ, pos}
use learn_k.Kernel.{Ret, val, Run, done, blocked, ◌>>=◌, ◌>>◌}
use learn_k.Container.Links.{Ptr}
use learn_k.Rbtree.Entries.{Entry}
use learn_k.Rbtree.{Tree, RbApi, State, insert_node}

-- a line of the log: a key and its data
abbrev pub Line : Type 0
Line = ℤ × List ℕ

abbrev pub line_of : Entry ℤ (List ℕ) → Line
line_of e = (e.key, e.value)

-- "1 Entry" and so on: 49 is the one
abbrev pub entry_text : ℕ → List ℕ
entry_text digit = digit ∷ 32 ∷ 69 ∷ 110 ∷ 116 ∷ 114 ∷ 121 ∷ []

-- What `kmalloc` answers to each insertion.
pub record Blocks : Type 0 where
  pub a : Ptr
  pub b : Ptr
  pub c : Ptr
  pub d : Ptr
  pub e : Ptr
  pub f : Ptr

module _ (B : RbApi ℤ (List ℕ)) where
  -- from `n` on; `none` if it takes more turns than `fuel`
  unfoldable pub print_from : ℕ → Tree ℤ (List ℕ) → Option (Entry ℤ (List ℕ)) → Option (List Line)
  print_from zero t n = none
  print_from (suc fuel) t none = some []
  print_from (suc fuel) t (some e) = elim (print_from fuel t (B.rb_next e t)) [
    | none ↦ none
    | some lines ↦ some (line_of e ∷ lines)
  ]

  unfoldable pub print_all_entries : ℕ → State ℤ (List ℕ) → Run (State ℤ (List ℕ)) (List Line)
  unfolding print_from
  print_all_entries fuel s = elim (print_from fuel s.root (B.rb_first s.root)) [
    | none ↦ blocked
    | some lines ↦ done lines s
  ]

  unfoldable pub start_init :
      ℕ → Blocks → State ℤ (List ℕ) → Run (State ℤ (List ℕ)) (List Line × Ret)
  unfolding print_all_entries
  start_init fuel p = do
    insert_node B (some p.a) (pos 100) (entry_text 49)
    insert_node B (some p.b) (pos 200) (entry_text 50)
    insert_node B (some p.c) (pos 150) (entry_text 51)
    insert_node B (some p.d) (pos 220) (entry_text 52)
    insert_node B (some p.e) (pos 300) (entry_text 53)
    insert_node B (some p.f) (pos 110) (entry_text 54)
    lines ← print_all_entries fuel
    λ s. done (lines, val 0) s
