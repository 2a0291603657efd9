-- ===== src/Rbtree.antt =====
-- src/rbtree/main.c: a map over the kernel's red-black tree. The search and insertion that
-- src/hook/khook.c has in the same words are generic here in the key and in what a node carries.
pub mod Keys
pub mod Entries
pub mod Spine
pub mod Search
pub mod Laws
pub mod Service
pub mod Representation
pub mod Init
pub mod Printed
mod Tests
use learn_k.Base.{
  ℕ, zero, suc, Bool, true, false, Option, none, some, List, [], ◌∷◌, ◌++◌, ◌≡◌, ◌==◌,
  if◌then◌else◌,
}
use learn_k.Base.Int.{ℤ}
use learn_k.Kernel.{eexist, Ret, val, err, Run, done, blocked, oops, ◌>>=◌, ◌>>◌}
use learn_k.Container.Links.{Ptr}
use learn_k.Strings.{at_most}
use learn_k.Rbtree.Keys.{Order, int_order}
use learn_k.Rbtree.Entries.{Entry, without, Apart}

-- What hangs at a `struct rb_node` pointer.
pub data Tree (K V : Type 0) : Type 0 where
  leaf : Tree K V
  node : Tree K V → Entry K V → Tree K V → Tree K V

-- the entries from left to right
abbrev pub entries : {K V : Type 0} → Tree K V → List (Entry K V)
entries leaf = []
entries (node l e r) = entries l ++ (e ∷ entries r)

abbrev pub head : {A : Type 0} → List A → Option A
head [] = none
head (x ∷ xs) = some x

-- <linux/rbtree.h>: the functions that a client calls keep the order of the nodes. `rb_erase` takes
-- the address of the node, and `rb_insert_color` that of the node that was linked in; `rb_next` takes the
-- node.
pub record RbApi (K V : Type 0) : Type 0 where
  pub rb_insert_color : Ptr → Tree K V → Tree K V
  pub rb_erase : Ptr → Tree K V → Tree K V
  pub rb_first : Tree K V → Option (Entry K V)
  pub entries-rb_insert_color : (a : Ptr) (t : Tree K V) → entries (rb_insert_color a t) ≡ entries t
  pub entries-rb_erase : (a : Ptr) (t : Tree K V) → entries (rb_erase a t) ≡ without a (entries t)
  pub rb_first_lem : (t : Tree K V) → rb_first t ≡ head (entries t)
  pub rb_next : Entry K V → Tree K V → Option (Entry K V)
  pub rb_next_lem :
      (t : Tree K V) (before : List (Entry K V)) (e : Entry K V) (after : List (Entry K V))
      → Apart (entries t)
      → entries t ≡ before ++ (e ∷ after)
      → rb_next e t ≡ head after

-- The tree, and which entries are allocated.
pub record State (K V : Type 0) : Type 0 where
  pub root : Tree K V
  pub live : Ptr → Bool

abbrev pub set_live : (Ptr → Bool) → Ptr → Bool → Ptr → Bool
set_live f p b q = if q == p then b else f q

unfoldable pub kfree : {K V : Type 0} → Ptr → State K V → Run (State K V) (Unit {0})
kfree p s = if s.live p then done tt (record s { live = set_live s.live p false }) else oops

module _ {K V : Type 0} ⦃o : Order K⦄ where
  unfoldable pub search_node : K → Tree K V → Option (Entry K V)
  search_node key leaf = none
  search_node key (node l cur r) =
      let left = search_node key l in
      let right = search_node key r in
      if o.lt key cur.key then left else if o.lt cur.key key then right else some cur

  -- The `while` of `insert_node`: the place that `new` points at in the end, as what the tree
  -- becomes when a node is linked there, or nothing if the key is taken.
  unfoldable pub place : K → Tree K V → Option (Entry K V → Tree K V)
  place key leaf = some (λ e. node leaf e leaf)
  place key (node l cur r) =
      let left : Option (Entry K V → Tree K V) = elim (place key l) [
        | none ↦ none
        | some hang ↦ some (λ e. node (hang e) cur r)
      ] in
      let right : Option (Entry K V → Tree K V) = elim (place key r) [
        | none ↦ none
        | some hang ↦ some (λ e. node l cur (hang e))
      ] in
      if o.lt key cur.key then left else if o.lt cur.key key then right else none

  module _ (B : RbApi K V) where
    -- `fresh` is what `kmalloc` returns; the result is not tested.
    unfoldable pub insert_entry : Option Ptr → K → V → State K V → Run (State K V) Ret
    insert_entry fresh key value s = elim (place key s.root) [
      | none ↦ done (err eexist) s
      | some hang ↦ elim fresh [
        | none ↦ oops
        | some p ↦ done (val 0) (record {
          root = B.rb_insert_color p (hang (record { addr = p; key = key; value = value }));
          live = set_live s.live p true;
        })
      ]
    ]

    -- The entry with the key is taken out and freed; what it carried is the result.
    unfoldable pub remove_entry : K → State K V → Run (State K V) (Option V)
    unfolding kfree
    remove_entry key s = elim (search_node key s.root) [
      | none ↦ done none s
      | some e ↦
          (kfree e.addr >> λ t. done (some e.value) t)
            (record s { root = B.rb_erase e.addr s.root })
    ]

    -- `while ((n = rb_first(&my_tree)))`
    unfoldable pub clear : ℕ → State K V → Run (State K V) (Unit {0})
    unfolding kfree
    clear zero s = blocked
    clear (suc fuel) s = elim (B.rb_first s.root) [
      | none ↦ done tt s
      | some e ↦ (kfree e.addr >> clear fuel) (record s { root = B.rb_erase e.addr s.root })
    ]

-- The functions of src/rbtree/main.c: keys are `int`, `data` is an array of 64 bytes.
module _ (B : RbApi ℤ (List ℕ)) where
  unfoldable pub insert_node :
      Option Ptr → ℤ → List ℕ → State ℤ (List ℕ) → Run (State ℤ (List ℕ)) Ret
  insert_node fresh key text s = insert_entry B fresh key (at_most 64 text) s

  unfoldable pub delete_node : ℤ → State ℤ (List ℕ) → Run (State ℤ (List ℕ)) (Unit {0})
  delete_node key s = (remove_entry B key >> λ t. done tt t) s

  unfoldable pub end_exit : ℕ → State ℤ (List ℕ) → Run (State ℤ (List ℕ)) (Unit {0})
  end_exit fuel s = clear B fuel s
