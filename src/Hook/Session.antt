-- ===== src/Hook/Session.antt =====
-- What the handlers keep and print.
use learn_k.Base.{ℕ, ◌≡◌, refl, sym, subst, true, false, Option, none, some, arith}
use learn_k.Kernel.{val, Run, done, blocked, oops, Returns, Returns-mono, Returns-bind}
use learn_k.Rbtree.Keys.{nat_order}
use learn_k.Rbtree.{RbApi, insert_entry}
use learn_k.Rbtree.Laws.{put_key, drop_key, IsMap, insert_entry_lem, remove_entry_lem}
use learn_k.Hook.Pool.{
  MountParams, Root, State, on_root, insert_node, pop_node, insert_params, pop_params, terminated,
}

abbrev pub Map : Type 0
Map = ℕ → Option MountParams

-- The pool maps instances to parameters as `m` does; each stands in memory of its own, and its
-- fields have terminators.
pub record IsPool (s : State) (m : Map) : Type 0 where
  pub maps : IsMap s.pool m
  pub free : s.locked ≡ false
  pub live : (k : ℕ) (p : MountParams) → m k ≡ some p → s.params p.addr ≡ true
  pub ended : (k : ℕ) (p : MountParams) → m k ≡ some p → terminated p ≡ true
  pub apart : (k j : ℕ) (p q : MountParams) → m k ≡ some p → m j ≡ some q → p.addr ≡ q.addr → k ≡ j

-- A command on the tree leaves the rest of the state alone.
pub Returns-on_root :
    {A : Type 0} (P : A → Root → Type 0) (c : Root → Run Root A) (s : State)
    → Returns P (c s.pool)
    → Returns (λ a s'. P a s'.pool × (s' ≡ record s { pool = s'.pool })) (on_root c s)
Returns-on_root P c s h = go (c s.pool) h
  where
    go :
        (r : Run Root _)
        → Returns P r
        → Returns
            (λ a s'. P a s'.pool × (s' ≡ record s { pool = s'.pool }))
            (elim r [ done a t ↦ done a (record s { pool = t }) | blocked ↦ blocked | oops ↦ oops ])
    go (done a t) h = (h, refl)
    go blocked h = h
    go oops h = h

-- what `insert_params` leaves: a key keeps what it has
abbrev pub kept : Map → ℕ → MountParams → Option MountParams → Map
kept m key p none = put_key m key p
kept m key p (some old) = m

module _ (B : RbApi ℕ MountParams) where
  inserted :
      (t : Root) (m : Map) (e key : ℕ) (p : MountParams)
      → IsMap t m
      → t.live e ≡ false
      → (old : Option MountParams) → m key ≡ old
      → Returns (λ _ t'. IsMap t' (kept m key p old)) (insert_node B (some e) key p t)
  unfolding insert_node
  inserted t m e key p is f none h =
      Returns-mono _ _ (insert_entry B (some e) key p t) (λ r t' i. i.1)
        (insert_entry_lem B t m is e key p f none h)
  inserted t m e key p is f (some old) h =
      Returns-mono _ _ (insert_entry B (some e) key p t)
        (λ r t' i. subst (λ u. IsMap u m) (sym i.1) is)
        (insert_entry_lem B t m is e key p f (some old) h)

  -- The lock is free before and after.
  pub insert_params_lem :
      (s : State) (m : Map) (e key : ℕ) (p : MountParams)
      → IsMap s.pool m
      → s.locked ≡ false
      → s.pool.live e ≡ false
      → Returns
          (λ r s'.
            (r ≡ val 0) × IsMap s'.pool (kept m key p (m key)) × (s' ≡ record s { pool = s'.pool }))
          (insert_params B (some e) key p s)
  unfolding insert_params
  insert_params_lem s m e key p is free f = rw free (
      Returns-bind
        (λ _ t.
          IsMap t.pool (kept m key p (m key)) × (t ≡ record s { pool = t.pool; locked = true }))
        _ (on_root (insert_node B (some e) key p) (record s { locked = true })) _
        (Returns-on_root (λ _ t. IsMap t (kept m key p (m key))) (insert_node B (some e) key p)
          (record s { locked = true }) (inserted s.pool m e key p is f (m key) refl))
        λ _ t h. (refl, h.0, ground (arith, h.1, free)))

  pub pop_params_lem :
      (s : State) (m : Map) (key : ℕ)
      → IsMap s.pool m
      → s.locked ≡ false
      → Returns
          (λ out s'.
            (out ≡ m key) × IsMap s'.pool (drop_key m key) × (s' ≡ record s { pool = s'.pool }))
          (pop_params B key s)
  unfolding pop_params pop_node
  pop_params_lem s m key is free = rw free (
      Returns-bind
        (λ out t.
          ((out ≡ m key) × IsMap t.pool (drop_key m key))
          × (t ≡ record s { pool = t.pool; locked = true }))
        _ (on_root (pop_node B key) (record s { locked = true })) _
        (Returns-on_root (λ out t. (out ≡ m key) × IsMap t (drop_key m key)) (pop_node B key)
          (record s { locked = true }) (remove_entry_lem B s.pool m is key))
        λ out t h. (h.0.0, h.0.1, ground (arith, h.1, free)))
