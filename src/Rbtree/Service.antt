-- ===== src/Rbtree/Service.antt =====
-- Sequences of calls of src/rbtree/main.c, against a finite map.
use learn_k.Base.{
  ℕ, ◌<◌, ◌≡◌, refl, ap, sym, subst, false, Option, none, some, List, [], ◌∷◌, arith, length,
}
use learn_k.Base.Int.{ℤ}
use learn_k.Kernel.{
  eexist, Ret, val, err, Run, done, ◌>>=◌, ◌>>◌, Returns, Returns-bind, Returns-and,
}
use learn_k.Container.Links.{Ptr}
use learn_k.Strings.{at_most}
use learn_k.Rbtree.Keys.{int_order}
use learn_k.Rbtree.{
  entries, RbApi, State, search_node, insert_entry, remove_entry, insert_node, delete_node,
  end_exit,
}
use learn_k.Rbtree.Laws.{
  value_of, put_key, drop_key, IsMap, Inserted, insert_entry_lem, search_node-map, remove_entry_lem,
  clear_lem,
}

-- A call; an insertion has the address that `kmalloc` returns for it.
pub data Op : Type 0 where
  insert : Ptr → ℤ → List ℕ → Op
  search : ℤ → Op
  delete : ℤ → Op

pub data Reply : Type 0 where
  status : Ret → Reply
  found : Option (List ℕ) → Reply
  deleted : Reply

abbrev pub Map : Type 0
Map = ℤ → Option (List ℕ)

-- What a finite map answers, and what it is afterwards: an insertion keeps what is there, and of a
-- text at most 64 bytes are kept.
abbrev pub insertion : ℤ → List ℕ → Map → Option (List ℕ) → Reply × Map
insertion key text m none = (status (val 0), put_key m key (at_most 64 text))
insertion key text m (some old) = (status (err eexist), m)

unfoldable pub answer : Op → Map → Reply × Map
answer (insert p key text) m = insertion key text m (m key)
answer (search key) m = (found (m key), m)
answer (delete key) m = (deleted, drop_key m key)

unfoldable pub answers : List Op → Map → List Reply
unfolding answer
answers [] m = []
answers (op ∷ ops) m = (answer op m).0 ∷ answers ops (answer op m).1

module _ (B : RbApi ℤ (List ℕ)) where
  unfoldable pub call : Op → State ℤ (List ℕ) → Run (State ℤ (List ℕ)) Reply
  unfolding insert_node delete_node
  call (insert p key text) s = (insert_node B (some p) key text >>= λ r. λ t. done (status r) t) s
  call (search key) s = done (found (value_of (search_node key s.root))) s
  call (delete key) s = (delete_node B key >> λ t. done deleted t) s

  unfoldable pub session : List Op → State ℤ (List ℕ) → Run (State ℤ (List ℕ)) (List Reply)
  unfolding call
  session [] s = done [] s
  session (op ∷ ops) s = (call op >>= λ r. session ops >>= λ rs. λ t. done (r ∷ rs) t) s

  abbrev Unused : Op → State ℤ (List ℕ) → Type 0
  Unused (insert p key text) s = s.live p ≡ false
  Unused (search key) s = Unit
  Unused (delete key) s = Unit

  -- Whenever `kmalloc` is called, it returns memory that is not in use then.
  unfoldable pub Allocates : List Op → State ℤ (List ℕ) → Type 0
  unfolding call
  Allocates [] s = Unit
  Allocates (op ∷ ops) s = Unused op s × Returns (λ _ t. Allocates ops t) (call op s)

  abbrev Done : Op → Map → Reply → State ℤ (List ℕ) → Type 0
  Done op m r s' = (r ≡ (answer op m).0) × IsMap s' (answer op m).1

  inserts :
      (p : Ptr) (key : ℤ) (text : List ℕ) (s : State ℤ (List ℕ)) (m : Map)
      → IsMap s m
      → s.live p ≡ false
      → (old : Option (List ℕ)) → m key ≡ old
      → Returns
          (λ r s'. (r ≡ (insertion key text m old).0) × IsMap s' (insertion key text m old).1)
          (call (insert p key text) s)
  unfolding call insert_node
  inserts p key text s m is f none e =
      Returns-bind (Inserted B s m is key (at_most 64 text) none) _
        (insert_entry B (some p) key (at_most 64 text) s) _
        (insert_entry_lem B s m is p key (at_most 64 text) f none e) λ r t h. (ap status h.0, h.1)
  inserts p key text s m is f (some old) e =
      Returns-bind (Inserted B s m is key (at_most 64 text) (some old)) _
        (insert_entry B (some p) key (at_most 64 text) s) _
        (insert_entry_lem B s m is p key (at_most 64 text) f (some old) e)
        λ r t h. (ap status h.0, subst (λ t'. IsMap t' m) (sym h.1) is)

  finds :
      (key : ℤ) (s : State ℤ (List ℕ)) (m : Map)
      → IsMap s m
      → Returns (λ r s'. (r ≡ found (m key)) × IsMap s' m) (call (search key) s)
  unfolding call
  finds key s m is = (ap found (search_node-map B s m is key), is)

  deletes :
      (key : ℤ) (s : State ℤ (List ℕ)) (m : Map)
      → IsMap s m
      → Returns (λ r s'. (r ≡ deleted) × IsMap s' (drop_key m key)) (call (delete key) s)
  unfolding call delete_node
  deletes key s m is =
      Returns-bind (λ _ t. IsMap t (drop_key m key)) _ (delete_node B key s) _
        (Returns-bind (λ out t. (out ≡ m key) × IsMap t (drop_key m key)) _ (remove_entry B key s) _
          (remove_entry_lem B s m is key) λ out t h. h.1)
        λ _ t h. (refl, h)

  call_lem :
      (op : Op) (s : State ℤ (List ℕ)) (m : Map)
      → IsMap s m
      → Unused op s
      → Returns (Done op m) (call op s)
  unfolding answer
  call_lem (insert p key text) s m is f = inserts p key text s m is f (m key) refl
  call_lem (search key) s m is f = finds key s m is
  call_lem (delete key) s m is f = deletes key s m is

  -- As long as `kmalloc` gives unused memory, every sequence of `insert_node`, `search_node` and
  -- `delete_node` gets the answers of a finite map that never overwrites; no call crashes.
  pub session-answers :
      (ops : List Op) (s : State ℤ (List ℕ)) (m : Map)
      → IsMap s m
      → Allocates ops s
      → Returns (λ rs _. rs ≡ answers ops m) (session ops s)
  unfolding session answers Allocates
  session-answers [] s m is al = refl
  session-answers (op ∷ ops) s m is al =
      Returns-bind (λ r t. Done op m r t × Allocates ops t) _ (call op s) _
        (Returns-and (Done op m) (λ _ t. Allocates ops t) (call op s) (call_lem op s m is al.0)
          al.1)
        λ r t h.
          Returns-bind (λ rs _. rs ≡ answers ops (answer op m).1) _ (session ops t) _
            (session-answers ops t (answer op m).1 h.0.1 h.1) λ rs u e. ground (arith, h.0.0, e)

  -- `end_exit` ends, with no entry in the tree and none allocated.
  pub end_exit_lem :
      (fuel : ℕ) (s : State ℤ (List ℕ)) (m : Map)
      → IsMap s m
      → length (entries s.root) < fuel
      → Returns
          (λ _ s'. (entries s'.root ≡ []) × ((a : Ptr) → s'.live a ≡ false))
          (end_exit B fuel s)
  unfolding end_exit
  end_exit_lem fuel s m is f = clear_lem B (entries s.root) fuel s refl is.apart is.owns f
