-- ===== src/Intervals.antt =====
-- src/rbtree/interval_tree.c: a client of the kernel's interval tree.
pub mod Overlap
pub mod Sorted
pub mod Laws
pub mod Init
pub mod Leak
mod Tests
use learn_k.Base.{
  ℕ, zero, suc, ◌-◌, ◌^◌, ◌≡◌, Bool, true, false, ◌&&◌, Option, none, some, List, [], ◌∷◌, ◌++◌,
  leb, ltb, ◌==◌, if◌then◌else◌,
}
use learn_k.Base.Int.{ℤ}
use learn_k.Kernel.{Run, done, blocked, oops, ◌>>=◌, ◌>>◌}
use learn_k.Container.Links.{Ptr}
use learn_k.Rbtree.{head, set_live}
use learn_k.Rbtree.Entries.{Entry, without, Apart}

-- `node.start` and `node.last`
pub record Span : Type 0 where
  pub start : ℕ
  pub last : ℕ

-- `struct NodeValue` at its address
abbrev pub NodeValue : Type 0
NodeValue = Entry Span ℤ

-- the intervals that meet the one from `start` to `last`, both included
abbrev pub overlapping : (start last : ℕ) → List NodeValue → List NodeValue
overlapping start last [] = []
overlapping start last (n ∷ ns) =
    if leb n.key.start last && leb start n.key.last
    then n ∷ overlapping start last ns
    else overlapping start last ns

-- where a new interval goes: by its start, after the others that have the same
abbrev pub insert_by_start : NodeValue → List NodeValue → List NodeValue
insert_by_start n [] = n ∷ []
insert_by_start n (x ∷ xs) =
    if ltb n.key.start x.key.start then n ∷ x ∷ xs else x ∷ insert_by_start n xs

-- <linux/interval_tree.h>. The iterators visit the intervals that overlap the given one from left
-- to right; `interval_tree_remove` takes the address of the node.
pub record IntervalApi : Type 1 where
  pub RbRootCached : Type 0
  pub nodes : RbRootCached → List NodeValue
  pub iter_first : RbRootCached → (start last : ℕ) → Option NodeValue
  pub iter_next : RbRootCached → NodeValue → (start last : ℕ) → Option NodeValue
  pub interval_tree_insert : NodeValue → RbRootCached → RbRootCached
  pub interval_tree_remove : Ptr → RbRootCached → RbRootCached
  pub iter_first_lem :
      (t : RbRootCached) (start last : ℕ)
      → iter_first t start last ≡ head (overlapping start last (nodes t))
  pub iter_next_lem :
      (t : RbRootCached) (start last : ℕ) (before : List NodeValue) (n : NodeValue)
      (after : List NodeValue)
      → Apart (nodes t)
      → overlapping start last (nodes t) ≡ before ++ (n ∷ after)
      → iter_next t n start last ≡ head after
  pub nodes-insert :
      (n : NodeValue) (t : RbRootCached)
      → nodes (interval_tree_insert n t) ≡ insert_by_start n (nodes t)
  pub nodes-remove :
      (a : Ptr) (t : RbRootCached) → nodes (interval_tree_remove a t) ≡ without a (nodes t)

module _ (B : IntervalApi) where
  -- The tree, and which nodes are allocated.
  pub record State : Type 0 where
    pub root : B.RbRootCached
    pub live : Ptr → Bool

  -- The `for` of `search`, from `node` on.
  unfoldable pub walk : ℕ → B.RbRootCached → (start last : ℕ) → Option NodeValue → Ptr → Option Ptr
  walk zero t start last cur nv = none
  walk (suc fuel) t start last none nv = some nv
  walk (suc fuel) t start last (some n) nv =
      walk fuel t start last (B.iter_next t n start last) n.addr

  -- `nv` is not initialised: `junk` is what it holds.
  unfoldable pub search : ℕ → Ptr → B.RbRootCached → (start last : ℕ) → Option Ptr
  search fuel junk t start last = walk fuel t start last (B.iter_first t start last) junk

  unfoldable pub insert : Option Ptr → (start last : ℕ) → ℤ → State → State
  insert none start last value s = s
  insert (some p) start last value s = record {
    root =
        B.interval_tree_insert
          (record { addr = p; key = record { start = start; last = last }; value = value }) s.root;
    live = set_live s.live p true;
  }

  unfoldable pub kfree : Ptr → State → Run State (Unit {0})
  kfree p s = if s.live p then done tt (record s { live = set_live s.live p false }) else oops

  -- A node that is not allocated is not one that can be taken out.
  unfoldable pub remove : ℕ → Ptr → (start last : ℕ) → State → Run State (Unit {0})
  unfolding kfree
  remove fuel junk start last s = elim (search fuel junk s.root start last) [
    | none ↦ blocked
    | some nv ↦
        if nv == 0
        then done tt s
        else if s.live nv
        then kfree nv (record s { root = B.interval_tree_remove nv s.root })
        else oops
  ]

  -- `ULONG_MAX`
  abbrev pub ulong_max : ℕ
  ulong_max = 2 ^ 64 - 1

  unfoldable pub remove_all : ℕ → State → Run State (Unit {0})
  unfolding kfree
  remove_all zero s = blocked
  remove_all (suc fuel) s = elim (B.iter_first s.root 0 ulong_max) [
    | none ↦ done tt s
    | some n ↦
        (kfree n.addr >> remove_all fuel) (record s { root = B.interval_tree_remove n.addr s.root })
  ]
