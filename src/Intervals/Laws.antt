-- ===== src/Intervals/Laws.antt =====
-- What `search`, `insert`, `remove` and `remove_all` do, over any interval tree.
use learn_k.Base.{
  ℕ, zero, suc, ◌-◌, ◌^◌, ◌<◌, ◌≡◌, refl, ap, sym, ◌∙◌, subst, ==_iff, ==_refl, true, false, some,
  List, [], ◌∷◌, ◌++◌, arith, ◌==◌, if◌then◌else◌, length, Bool-cases, inl, inr,
}
use mathlib.Core.List.{append_assoc}
use learn_k.Base.Int.{ℤ}
use learn_k.Kernel.{Run, done, oops, Returns}
use learn_k.Container.Links.{Ptr}
use learn_k.Rbtree.{head, set_live}
use learn_k.Rbtree.Entries.{without, holds, Apart, Apart-without, holds-without}
use learn_k.Intervals.{
  NodeValue, overlapping, IntervalApi, State, walk, search, insert, kfree, remove, remove_all,
}
use learn_k.Intervals.Overlap.{
  last_or, holds-overlapping, holds-last_or, holds-insert_by_start, Apart-insert_by_start,
}

-- Starts that an `unsigned long` can hold.
abbrev pub Fits : List NodeValue → Type 0
Fits [] = Unit
Fits (n ∷ ns) = (n.key.start < 2 ^ 64) × Fits ns

overlapping-all : (ns : List NodeValue) → Fits ns → overlapping 0 (2 ^ 64 - 1) ns ≡ ns
overlapping-all [] f = refl
overlapping-all (n ∷ ns) f = ground (arith, overlapping-all ns f.1)

module _ (B : IntervalApi) where
  -- The nodes of the tree are exactly what is allocated, at addresses other than NULL.
  pub record IsTree (s : State B) : Type 0 where
    pub apart : Apart (B.nodes s.root)
    pub owns : (a : Ptr) → s.live a ≡ holds a (B.nodes s.root)
    pub non_null : s.live 0 ≡ false

  walk_lem :
      (t : B.RbRootCached) (start last : ℕ) (xs before : List NodeValue) (fuel : ℕ) (nv : Ptr)
      → Apart (B.nodes t)
      → overlapping start last (B.nodes t) ≡ before ++ xs
      → length xs < fuel
      → walk B fuel t start last (head xs) nv ≡ some (last_or nv xs)
  unfolding walk
  walk_lem t start last xs before zero nv d e f = absurd (omega arith)
  walk_lem t start last [] before (suc fuel) nv d e f = refl
  walk_lem t start last (x ∷ xs) before (suc fuel) nv d e f =
      rw (B.iter_next_lem t start last before x xs d e) (
        walk_lem t start last xs (before ++ (x ∷ [])) fuel x.addr d
          (e ∙ sym (append_assoc before (x ∷ []) xs)) (omega arith))

  -- `search` ends, with the last one of the overlapping intervals, in the order of their starts, or
  -- with what the uninitialised pointer held if none overlaps.
  pub search_lem :
      (fuel : ℕ) (junk : Ptr) (t : B.RbRootCached) (start last : ℕ)
      → Apart (B.nodes t)
      → length (overlapping start last (B.nodes t)) < fuel
      → search B fuel junk t start last ≡ some (last_or junk (overlapping start last (B.nodes t)))
  unfolding search
  search_lem fuel junk t start last d f =
      rw (B.iter_first_lem t start last)
        (walk_lem t start last (overlapping start last (B.nodes t)) [] fuel junk d refl f)

  -- An insertion keeps the tree well formed, with or without memory.
  pub insert-IsTree :
      (p : Ptr) (start last : ℕ) (value : ℤ) (s : State B)
      → IsTree s
      → s.live p ≡ false
      → (p == 0) ≡ false
      → IsTree (insert B (some p) start last value s)
  unfolding insert
  insert-IsTree p start last value s is f z = record {
    apart =
        subst Apart (sym (B.nodes-insert new s.root))
          (Apart-insert_by_start new (B.nodes s.root) (sym (is.owns p) ∙ f) is.apart);
    owns = λ a.
        ground (
          arith,
          B.nodes-insert new s.root,
          holds-insert_by_start a new (B.nodes s.root),
          is.owns a,
        );
    non_null = ground (arith, is.non_null);
  }
    where
      new : NodeValue
      new = record { addr = p; key = record { start = start; last = last }; value = value }

  -- A node taken out and freed.
  erase-IsTree :
      (a : Ptr) (s : State B)
      → IsTree s
      → IsTree (record { root = B.interval_tree_remove a s.root; live = set_live s.live a false })
  erase-IsTree a s is = record {
    apart = subst Apart (sym (B.nodes-remove a s.root)) (Apart-without a (B.nodes s.root) is.apart);
    owns = λ b.
        ground
          (arith, B.nodes-remove a s.root, holds-without b a (B.nodes s.root) is.apart, is.owns b);
    non_null = ground (arith, is.non_null);
  }

  allocated-non_null : (s : State B) (a : Ptr) → IsTree s → s.live a ≡ true → (a == 0) ≡ false
  allocated-non_null s a is l = elim (Bool-cases (a == 0)) [
    | inl e ↦ absurd (ground (arith, is.non_null, ap s.live ((==_iff a 0).0 e)))
    | inr e ↦ e
  ]

  -- The outcome of `remove`, by the intervals that overlap.
  abbrev pub Removed : List NodeValue → Ptr → State B → Run (State B) (Unit {0}) → Type 0
  Removed [] junk s m = m ≡ (if junk == 0 then done tt s else oops)
  Removed (n ∷ ns) junk s m =
      let a = last_or n.addr ns in
      Returns
        (λ _ s'. (B.nodes s'.root ≡ without a (B.nodes s.root)) × (s'.live a ≡ false) × IsTree s') m

  removed :
      (xs : List NodeValue) (junk : Ptr) (s : State B)
      → IsTree s
      → s.live junk ≡ false
      → ((a : Ptr) → holds a xs ≡ true → s.live a ≡ true)
      → Removed xs junk s (
          if last_or junk xs == 0
          then done tt s
          else if s.live (last_or junk xs)
          then kfree B
              (last_or junk xs)
              (record s { root = B.interval_tree_remove (last_or junk xs) s.root })
          else oops)
  unfolding kfree
  removed [] junk s is w l = rw w refl
  removed (x ∷ xs) junk s is w l =
      let a = last_or x.addr xs in
      let allocated : s.live a ≡ true = l a (holds-last_or junk x xs) in
      rw (allocated-non_null s a is allocated, allocated)
        (B.nodes-remove a s.root, ground (arith, ==_refl a), erase-IsTree a s is)

  -- If no node is allocated at the address that the uninitialised pointer has: where an interval
  -- overlaps, `remove` ends with exactly the last one taken out and freed; where none does, nothing
  -- happens if the uninitialised pointer is NULL, and an invalid pointer is used otherwise.
  pub remove_lem :
      (fuel : ℕ) (junk : Ptr) (start last : ℕ) (s : State B)
      → IsTree s
      → s.live junk ≡ false
      → length (overlapping start last (B.nodes s.root)) < fuel
      → Removed (overlapping start last (B.nodes s.root)) junk s (remove B fuel junk start last s)
  unfolding remove
  remove_lem fuel junk start last s is w f =
      rw (remove, search_lem fuel junk s.root start last is.apart f)
        (removed (overlapping start last (B.nodes s.root)) junk s is w
          λ a h. is.owns a ∙ holds-overlapping a start last (B.nodes s.root) h)

  -- What the loop of `remove_all` takes.
  first :
      (s : State B) (ns : List NodeValue)
      → B.nodes s.root ≡ ns
      → Fits ns
      → B.iter_first s.root 0 (2 ^ 64 - 1) ≡ head ns
  first s ns e f =
      B.iter_first_lem s.root 0 (2 ^ 64 - 1)
      ∙ ap (λ l. head (overlapping 0 (2 ^ 64 - 1) l)) e
      ∙ ap head (overlapping-all ns f)

  -- `remove_all` ends, with every node taken out and freed.
  pub remove_all_lem :
      (ns : List NodeValue) (fuel : ℕ) (s : State B)
      → B.nodes s.root ≡ ns
      → IsTree s
      → Fits ns
      → length ns < fuel
      → Returns
          (λ _ s'. (B.nodes s'.root ≡ []) × ((a : Ptr) → s'.live a ≡ false))
          (remove_all B fuel s)
  unfolding remove_all kfree
  remove_all_lem ns zero s e is fits f = absurd (omega arith)
  remove_all_lem [] (suc fuel) s e is fits f =
      rw (first s [] e tt, Returns) (e, λ a. is.owns a ∙ ap (holds a) e)
  remove_all_lem (n ∷ ns) (suc fuel) s e is fits f =
      let erased : B.nodes (B.interval_tree_remove n.addr s.root) ≡ ns =
        B.nodes-remove n.addr s.root ∙ ap (without n.addr) e ∙ ground (arith, ==_refl n.addr) in
      rw (first s (n ∷ ns) e fits, Returns, is.owns n.addr ∙ ap (holds n.addr) e, ==_refl n.addr)
        (remove_all_lem ns fuel
          (record {
            root = B.interval_tree_remove n.addr s.root;
            live = set_live s.live n.addr false;
          })
          erased (erase-IsTree n.addr s is) fits.1 (omega arith))
