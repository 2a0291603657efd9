-- ===== src/Rhash.antt =====
-- src/rhashtable/main.c: a module that fills a resizable hash table of the kernel, looks up all that
-- it put in, and removes one entry.
pub mod Elements
pub mod Filled
mod Tests
use learn_k.Base.{
  ℕ, zero, suc, ◌+◌, ◌*◌, ◌≡◌, Bool, true, false, not, Option, none, some, List, [], ◌∷◌, ◌++◌,
  ◌&&◌, ◌==◌, if◌then◌else◌,
}
use learn_k.Base.Int.{ℤ, pos}
use learn_k.Kernel.{Run, done, oops, ◌>>=◌, ◌>>◌}
use learn_k.Container.Links.{Ptr}
use learn_k.Rbtree.{set_live}
use learn_k.Rbtree.Entries.{Entry, without}

-- `struct hash_entry` at its address
abbrev pub HashEntry : Type 0
HashEntry = Entry ℕ ℕ

-- the first entry with a key
abbrev pub find_key : ℕ → List HashEntry → Option HashEntry
find_key key [] = none
find_key key (e ∷ es) = if e.key == key then some e else find_key key es

-- <linux/rhashtable.h>: the entries of a table, in the order in which it searches and frees them.
pub record RhashApi : Type 1 where
  pub Rhashtable : Type 0
  pub elements : Rhashtable → List HashEntry
  pub init : Rhashtable
  pub insert_fast : HashEntry → Rhashtable → Rhashtable
  pub remove_fast : Ptr → Rhashtable → Rhashtable
  pub lookup : Rhashtable → ℕ → Option HashEntry
  pub elements-init : elements init ≡ []
  pub elements-insert :
      (e : HashEntry) (t : Rhashtable)
      → (l : List HashEntry) × (r : List HashEntry) × (elements t ≡ l ++ r)
        × (elements (insert_fast e t) ≡ l ++ (e ∷ r))
  pub elements-remove :
      (a : Ptr) (t : Rhashtable) → elements (remove_fast a t) ≡ without a (elements t)
  pub lookup_lem : (t : Rhashtable) (key : ℕ) → lookup t key ≡ find_key key (elements t)

module _ (B : RhashApi) where
  -- The table, and which entries are allocated.
  pub record State : Type 0 where
    pub rht : B.Rhashtable
    pub live : Ptr → Bool

  -- The first loop, from `i` on, for what `kzalloc` and `rhashtable_insert_fast` answer in each
  -- turn: whether it gets to its end.
  unfoldable pub insert_from : List (Option Ptr × Bool) → ℕ → State → Bool × State
  insert_from [] i s = (true, s)
  insert_from ((none, inserted) ∷ rest) i s = (false, s)
  insert_from ((some p, inserted) ∷ rest) i s =
      let entry : HashEntry = record { addr = p; key = i; value = i * i } in
      let allocated : State = record s { live = set_live s.live p true } in
      let next = insert_from rest (i + 1) (record allocated { rht = B.insert_fast entry s.rht }) in
      if inserted
      then next
      else (false, record allocated { live = set_live allocated.live p false })

  -- `entry->value != i * i`, or no entry
  abbrev pub wrong : ℕ → Option HashEntry → Bool
  wrong i none = true
  wrong i (some e) = not (e.value == i * i)

  -- The second loop; it looks up each key twice.
  unfoldable pub check_from : ℕ → ℕ → State → Bool
  check_from zero i s = true
  check_from (suc n) i s =
      let rest = check_from n (i + 1) s in
      if wrong i (B.lookup s.rht i)
      then false
      else if wrong i (B.lookup s.rht i)
      then false
      else rest

  -- It is not freed.
  unfoldable pub remove_one : State → State
  remove_one s = elim (B.lookup s.rht 1) [
    | none ↦ s
    | some entry ↦ record s { rht = B.remove_fast entry.addr s.rht }
  ]

  -- `hash_entry_free` for each entry
  unfoldable pub free_all : List HashEntry → State → Run State (Unit {0})
  free_all [] s = done tt s
  free_all (e ∷ es) s =
      let rest = free_all es (record s { live = set_live s.live e.addr false }) in
      if s.live e.addr then rest else oops

  -- From `rhashtable_init` on, which has succeeded; the result is 0 in any case.
  unfoldable pub start_init : List (Option Ptr × Bool) → State → Run State ℤ
  unfolding free_all
  start_init turns s =
      let (filled, t) = insert_from turns 0 s in
      let u = if filled && check_from 1000 0 t then remove_one t else t in
      (free_all (B.elements u.rht) >> λ v. done (pos 0) v) u
