-- ===== src/Hashmap.antt =====
-- src/map/map.c: a client of the kernel's hash table.
pub mod Chains
pub mod Laws
pub mod Service
pub mod Init
pub mod Printed
mod Tests
use learn_k.Base.{
  ℕ, zero, suc, ◌+◌, ◌<◌, ◌≡◌, Bool, true, false, Option, none, some, List, [], ◌∷◌, ◌++◌, ◌==◌,
  if◌then◌else◌,
}
use learn_k.Base.Int.{ℤ, pos, eqb_ℤ}
use learn_k.Kernel.{Run, done, oops, ◌>>=◌, ◌>>◌}
use learn_k.Container.Links.{Ptr}
use learn_k.Rbtree.{set_live}
use learn_k.Rbtree.Entries.{Entry, without}

-- `struct my_data` at its address, with the address of its name
abbrev pub MyData : Type 0
MyData = Entry ℤ ℕ

-- <linux/hashtable.h>, for a table of 2^7 chains: a new element comes first in its chain;
-- `hash_del` takes the address of the element.
pub record HashApi : Type 1 where
  pub Hashtable : Type 0
  pub chain : Hashtable → ℕ → List MyData
  pub hash : ℤ → ℕ
  pub hash_init : Hashtable
  pub hash_add : MyData → Hashtable → Hashtable
  pub hash_del : Ptr → Hashtable → Hashtable
  pub hash-below : (key : ℤ) → hash key < 128
  pub chain-init : (b : ℕ) → chain hash_init b ≡ []
  pub chain-add :
      (e : MyData) (t : Hashtable) (b : ℕ)
      → chain (hash_add e t) b ≡ (if b == hash e.key then e ∷ chain t b else chain t b)
  pub chain-del : (a : Ptr) (t : Hashtable) (b : ℕ) → chain (hash_del a t) b ≡ without a (chain t b)

-- the loop of `get_element`
unfoldable pub first_with : ℤ → List MyData → Option MyData
first_with key [] = none
first_with key (ptr ∷ rest) =
    let found = first_with key rest in if eqb_ℤ ptr.key key then some ptr else found

module _ (B : HashApi) where
  -- The table, and which elements are allocated.
  pub record State : Type 0 where
    pub ht : B.Hashtable
    pub live : Ptr → Bool

  unfoldable pub add_element : Option Ptr → ℤ → ℕ → State → State
  add_element none key name s = s
  add_element (some p) key name s = record {
    ht = B.hash_add (record { addr = p; key = key; value = name }) s.ht;
    live = set_live s.live p true;
  }

  -- `hash_del` and `kfree`
  unfoldable pub remove_element : Ptr → State → Run State (Unit {0})
  remove_element p s =
      if s.live p
      then done tt (record { ht = B.hash_del p s.ht; live = set_live s.live p false })
      else oops

  unfoldable pub get_element : ℤ → State → Option MyData
  unfolding first_with
  get_element key s = first_with key (B.chain s.ht (B.hash key))

  -- `p = get_element(key); if (p) remove_element(p);`
  unfoldable pub remove_key : ℤ → State → Run State (Unit {0})
  unfolding get_element
  remove_key key s = elim (get_element key s) [
    | none ↦ done tt s
    | some ptr ↦ remove_element ptr.addr s
  ]

  -- `hash_for_each_safe` has read the next element before it takes one out.
  unfoldable pub clear_chain : List MyData → State → Run State (Unit {0})
  unfolding remove_element
  clear_chain [] s = done tt s
  clear_chain (ptr ∷ rest) s = (remove_element ptr.addr >> clear_chain rest) s

  -- the chains from `bkt` on
  unfoldable pub clear_from : ℕ → ℕ → State → Run State (Unit {0})
  unfolding clear_chain
  clear_from zero bkt s = done tt s
  clear_from (suc n) bkt s = (clear_chain (B.chain s.ht bkt) >> clear_from n (bkt + 1)) s

  unfoldable pub clear : State → Run State (Unit {0})
  unfolding clear_from
  clear s = clear_from 128 0 s
