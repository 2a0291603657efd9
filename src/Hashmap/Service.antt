-- ===== src/Hashmap/Service.antt =====
-- Sequences of calls, and `clear`.
use learn_k.Base.{
  ℕ, zero, suc, ◌+◌, ◌≤◌, ◌<◌, ◌≡◌, refl, ap, ◌∙◌, subst, false, Option, some, List, [], ◌∷◌, arith,
  ==_refl, Bool-cases, inl, inr,
}
use native.Mathlib.Decide.{dec_lt}
use learn_k.Base.Int.{ℤ}
use learn_k.Kernel.{Run, done, ◌>>=◌, ◌>>◌, Returns, Returns-mono, Returns-bind, Returns-and}
use learn_k.Container.Links.{Ptr}
use learn_k.Rbtree.{set_live}
use learn_k.Rbtree.Entries.{without, holds}
use learn_k.Hashmap.{
  MyData, HashApi, State, add_element, remove_element, get_element, remove_key, clear_chain,
  clear_from, clear,
}
use learn_k.Hashmap.Chains.{names, name_of, first}
use learn_k.Hashmap.Laws.{
  Names, push_name, pop_name, IsTable, add_element-IsTable, erased, get_element-names,
  remove_key-IsTable,
}

-- A call; an addition has the address that `kmalloc` returns for it.
pub data Op : Type 0 where
  add : Ptr → ℤ → ℕ → Op
  get : ℤ → Op
  remove : ℤ → Op

-- The names under each key are a stack.
unfoldable pub after_op : Op → Names → Names
after_op (add p key name) m = push_name m key name
after_op (get key) m = m
after_op (remove key) m = pop_name m key

unfoldable pub answers : List Op → Names → List (Option ℕ)
unfolding after_op
answers [] m = []
answers (add p key name ∷ ops) m = answers ops (after_op (add p key name) m)
answers (get key ∷ ops) m = first (m key) ∷ answers ops m
answers (remove key ∷ ops) m = answers ops (after_op (remove key) m)

module _ (B : HashApi) where
  unfoldable pub session : List Op → State B → Run (State B) (List (Option ℕ))
  session [] s = done [] s
  session (add p key name ∷ ops) s = session ops (add_element B (some p) key name s)
  session (get key ∷ ops) s =
      (session ops >>= λ rs. λ t. done (name_of (get_element B key s) ∷ rs) t) s
  session (remove key ∷ ops) s = (remove_key B key >> session ops) s

  -- Whenever `kmalloc` is called, it returns memory that is not in use then.
  unfoldable pub Allocates : List Op → State B → Type 0
  Allocates [] s = Unit
  Allocates (add p key name ∷ ops) s =
      (s.live p ≡ false) × Allocates ops (add_element B (some p) key name s)
  Allocates (get key ∷ ops) s = Allocates ops s
  Allocates (remove key ∷ ops) s = Returns (λ _ t. Allocates ops t) (remove_key B key s)

  -- As long as `kmalloc` gives unused memory, `get_element` finds under each key the name that was
  -- added last and not removed since, and no call crashes: every sequence of additions, lookups and
  -- removals gets the answers of a stack of names for each key.
  pub session-stacks :
      (ops : List Op) (s : State B) (m : Names)
      → IsTable B s m
      → Allocates ops s
      → Returns (λ rs _. rs ≡ answers ops m) (session ops s)
  unfolding session answers after_op Allocates
  session-stacks [] s m is al = refl
  session-stacks (add p key name ∷ ops) s m is al =
      session-stacks ops (add_element B (some p) key name s) (push_name m key name)
        (add_element-IsTable B s m is p key name al.0) al.1
  session-stacks (get key ∷ ops) s m is al =
      Returns-bind (λ rs _. rs ≡ answers ops m) _ (session ops s) _ (session-stacks ops s m is al)
        λ rs t e. ground (arith, e, get_element-names B s m is key)
  session-stacks (remove key ∷ ops) s m is al =
      Returns-bind (λ _ t. IsTable B t (pop_name m key) × Allocates ops t) _ (remove_key B key s) _
        (Returns-and (λ _ t. IsTable B t (pop_name m key)) (λ _ t. Allocates ops t)
          (remove_key B key s) (remove_key-IsTable B s m is key) al)
        λ _ t h. session-stacks ops t (pop_name m key) h.0 h.1

  -- Some chains have been emptied, and nothing was added.
  record Cleared (first_chain number : ℕ) (s s' : State B) : Type 0 where
    left : Names
    table : IsTable B s' left
    emptied : (b : ℕ) → first_chain ≤ b → b < first_chain + number → B.chain s'.ht b ≡ []
    still : (b : ℕ) → B.chain s.ht b ≡ [] → B.chain s'.ht b ≡ []

  clear_chain_lem :
      (es : List MyData) (b : ℕ) (s : State B) (m : Names)
      → IsTable B s m
      → B.chain s.ht b ≡ es
      → Returns (λ _ s'. Cleared b 1 s s') (clear_chain B es s)
  unfolding clear_chain remove_element
  clear_chain_lem [] b s m is e = record {
    left = m;
    table = is;
    emptied = λ c l h. subst (λ d. B.chain s.ht d ≡ []) (omega (arith, l, h)) e;
    still = λ c h. h;
  }
  clear_chain_lem (x ∷ es) b s m is e =
      let allocated = is.owns x.addr b (rw e (ground (arith, ==_refl x.addr))) in
      rw allocated (
        Returns-mono _ _ (clear_chain B es _)
          (λ _ s' c. record {
            left = c.left;
            table = c.table;
            emptied = c.emptied;
            still = λ d h. c.still d (B.chain-del x.addr s.ht d ∙ ap (without x.addr) h);
          })
          (clear_chain_lem es b
            (record { ht = B.hash_del x.addr s.ht; live = set_live s.live x.addr false }) _
            (erased B s m is x.addr)
            (B.chain-del x.addr s.ht b ∙ ap (without x.addr) e ∙ ground (arith, ==_refl x.addr))))

  clear_from_lem :
      (n b : ℕ) (s : State B) (m : Names)
      → IsTable B s m
      → Returns (λ _ s'. Cleared b n s s') (clear_from B n b s)
  unfolding clear_from
  clear_from_lem zero b s m is = record {
    left = m;
    table = is;
    emptied = λ c l h. absurd (omega (arith, l, h));
    still = λ c h. h;
  }
  clear_from_lem (suc n) b s m is =
      Returns-bind (λ _ t. Cleared b 1 s t) _ (clear_chain B (B.chain s.ht b) s) _
        (clear_chain_lem (B.chain s.ht b) b s m is refl)
        λ _ t c.
          Returns-mono _ _ (clear_from B n (b + 1) t)
            (λ _ s' d. record {
              left = d.left;
              table = d.table;
              emptied = λ k l h. elim (dec_lt b k) [
                | yes above ↦ d.emptied k (omega (arith, above)) (omega (arith, h))
                | no below ↦ d.still k (c.emptied k l (omega (arith, below)))
              ];
              still = λ k h. d.still k (c.still k h);
            })
            (clear_from_lem n (b + 1) t c.left c.table)

  all_freed :
      (s s' : State B)
      → Cleared 0 128 s s'
      → IsTable B s' (λ _. []) × ((a : Ptr) → s'.live a ≡ false)
  all_freed s s' c = (
    record {
      reads = λ key.
          ap (names key) (c.emptied (B.hash key) (omega arith) (omega (arith, B.hash-below key)));
      inner = c.table.inner;
      owns = c.table.owns;
      apart = c.table.apart;
      owned = c.table.owned;
    },
    λ a. elim (Bool-cases (s'.live a)) [
      | inl l ↦
          let (b, lt, k) = c.table.owned a l in
          absurd (ground (arith, k, ap (holds a) (c.emptied b (omega arith) (omega (arith, lt)))))
      | inr n ↦ n
    ],
  )

  -- `clear` ends with all chains empty and every element freed.
  pub clear_lem :
      (s : State B) (m : Names)
      → IsTable B s m
      → Returns (λ _ s'. IsTable B s' (λ _. []) × ((a : Ptr) → s'.live a ≡ false)) (clear B s)
  unfolding clear
  clear_lem s m is =
      Returns-mono _ _ (clear_from B 128 0 s) (λ _ s' c. all_freed s s' c)
        (clear_from_lem 128 0 s m is)
