-- ===== src/Rhash/Filled.antt =====
-- What the table holds, and what is left in the end.
use learn_k.Base.{
  ℕ, zero, suc, ◌+◌, ◌*◌, ◌≤◌, ◌<◌, ◌≡◌, refl, ap, sym, ◌∙◌, subst, Bool, true, false, ◌&&◌, Option,
  none, some, List, [], ◌∷◌, ◌++◌, arith, ◌==◌, ==_refl, if◌then◌else◌, length, Bool-cases, inl,
  inr,
}
use learn_k.Base.Int.{pos}
use learn_k.Kernel.{done, ◌>>◌, Returns, Returns-mono, Returns-bind}
use learn_k.Container.Links.{Ptr}
use learn_k.Rbtree.{set_live}
use learn_k.Rbtree.Entries.{holds, Apart, Apart-without, holds-without}
use learn_k.Rhash.{
  HashEntry, find_key, RhashApi, State, insert_from, check_from, remove_one, free_all, start_init,
}
use learn_k.Rhash.Elements.{holds-insert, Apart-insert, find_key-insert, holds-find_key}

module _ (B : RhashApi) where
  -- The table holds the keys below `n` with their squares, and its entries are what is allocated.
  pub record Filled (n : ℕ) (s : State B) : Type 0 where
    pub apart : Apart (B.elements s.rht)
    pub owns : (a : Ptr) → s.live a ≡ holds a (B.elements s.rht)
    pub below :
        (k : ℕ)
        → k < n
        → (e : HashEntry) × (find_key k (B.elements s.rht) ≡ some e) × (e.value ≡ k * k)
    pub above : (k : ℕ) → n ≤ k → find_key k (B.elements s.rht) ≡ none

  abbrev Fresh : Option Ptr → State B → Type 0
  Fresh none s = Unit
  Fresh (some p) s = s.live p ≡ false

  abbrev after : Option Ptr → ℕ → State B → State B
  after none i s = s
  after (some p) i s = record {
    rht = B.insert_fast (record { addr = p; key = i; value = i * i }) s.rht;
    live = set_live s.live p true;
  }

  -- `kzalloc` returns memory that is not in use.
  unfoldable pub Unused : List (Option Ptr × Bool) → ℕ → State B → Type 0
  Unused [] i s = Unit
  Unused ((fresh, inserted) ∷ rest) i s = Fresh fresh s × Unused rest (i + 1) (after fresh i s)

  insert-Filled :
      (p : Ptr) (n : ℕ) (s : State B)
      → Filled n s
      → s.live p ≡ false
      → Filled (n + 1) (after (some p) n s)
  insert-Filled p n s is f = record {
    apart = subst Apart (sym d) (
        Apart-insert l new r (sym (ap (holds p) c) ∙ sym (is.owns p) ∙ f) (subst Apart c is.apart));
    owns = λ a. ground (arith, is.owns a, ap (holds a) c, ap (holds a) d, holds-insert a l new r);
    below = λ k h. elim (Bool-cases (n == k)) [
      | inl e ↦ (new, find k ∙ rw e refl, ground (arith, e))
      | inr e ↦ let (x, q, v) = is.below k (ground (arith, e, h)) in (x, find k ∙ rw e q, v)
    ];
    above = λ k h. find k ∙ ground (arith, h, is.above k);
  }
    where
      new : HashEntry
      new = record { addr = p; key = n; value = n * n }

      l : List HashEntry
      l = (B.elements-insert new s.rht).0

      r : List HashEntry
      r = (B.elements-insert new s.rht).1

      c : B.elements s.rht ≡ l ++ r
      c = (B.elements-insert new s.rht).2

      d : B.elements (B.insert_fast new s.rht) ≡ l ++ (new ∷ r)
      d = (B.elements-insert new s.rht).3

      find :
          (k : ℕ)
          → find_key k (B.elements (B.insert_fast new s.rht))
            ≡ (if n == k then some new else find_key k (B.elements s.rht))
      find k =
          ap (find_key k) d
          ∙ find_key-insert k l new r (sym (ap (find_key n) c) ∙ is.above n (omega arith))
          ∙ ap (λ o. if n == k then some new else o) (sym (ap (find_key k) c))

  -- No allocation and no insertion fails.
  unfoldable pub all_succeed : List (Option Ptr × Bool) → Bool
  all_succeed [] = true
  all_succeed ((none, inserted) ∷ rest) = false
  all_succeed ((some p, inserted) ∷ rest) = inserted && all_succeed rest

  -- How far the first loop gets.
  record Inserted (i : ℕ) (turns : List (Option Ptr × Bool)) (out : Bool × State B) : Type 0 where
    number : ℕ
    filled : Filled number out.1
    whole : out.0 ≡ true → number ≡ i + length turns
    flag : out.0 ≡ all_succeed turns

  insert_from_lem :
      (turns : List (Option Ptr × Bool)) (i : ℕ) (s : State B)
      → Filled i s
      → Unused turns i s
      → Inserted i turns (insert_from B turns i s)
  unfolding insert_from Unused all_succeed
  insert_from_lem [] i s is u = record {
    number = i;
    filled = is;
    whole = λ h. omega arith;
    flag = refl;
  }
  insert_from_lem ((none, inserted) ∷ rest) i s is u = record {
    number = i;
    filled = is;
    whole = λ h. absurd (ground (arith, h));
    flag = refl;
  }
  insert_from_lem ((some p, false) ∷ rest) i s is u = record {
    number = i;
    filled = record {
      apart = is.apart;
      owns = λ a. ground (arith, is.owns a, u.0, is.owns p);
      below = is.below;
      above = is.above;
    };
    whole = λ h. absurd (ground (arith, h));
    flag = refl;
  }
  insert_from_lem ((some p, true) ∷ rest) i s is u =
      let next =
        insert_from_lem rest (i + 1) (after (some p) i s) (insert-Filled p i s is u.0) u.1 in
      record {
        number = next.number;
        filled = next.filled;
        whole = λ h. omega (arith, next.whole h);
        flag = next.flag;
      }

  check_from_lem : (n i m : ℕ) (s : State B) → Filled m s → i + n ≤ m → check_from B n i s ≡ true
  unfolding check_from
  check_from_lem zero i m s is h = refl
  check_from_lem (suc n) i m s is h =
      let (e, q, v) = is.below i (omega (arith, h)) in
      rw (B.lookup_lem s.rht i ∙ q, v, ==_refl (i * i))
        (check_from_lem n (i + 1) m s is (omega (arith, h)))

  free_all_lem :
      (es : List HashEntry) (s : State B)
      → Apart es
      → ((a : Ptr) → holds a es ≡ true → s.live a ≡ true)
      → Returns
          (λ _ t. (a : Ptr) → t.live a ≡ (if holds a es then false else s.live a))
          (free_all B es s)
  unfolding free_all
  free_all_lem [] s d l = λ a. refl
  free_all_lem (e ∷ es) s d l = rw (l e.addr (ground (arith, ==_refl e.addr))) (
      Returns-mono _ _ (free_all B es _) (λ _ t h a. ground (arith, h a, d.0))
        (free_all_lem es (record s { live = set_live s.live e.addr false }) d.1
          (λ a h. ground (arith, l a, h, d.0))))

  -- One block of memory, or none, is still allocated.
  abbrev pub Left : Bool → (Ptr → Bool) → Type 0
  Left true live = (p : Ptr) × ((a : Ptr) → live a ≡ (a == p))
  Left false live = (a : Ptr) → live a ≡ false

  remove_one-eq :
      (s : State B) (e : HashEntry)
      → B.lookup s.rht 1 ≡ some e
      → remove_one B s ≡ record s { rht = B.remove_fast e.addr s.rht }
  unfolding remove_one
  remove_one-eq s e h = rw (remove_one, h) refl

  finish :
      (turns : List (Option Ptr × Bool)) (s : State B) (out : Bool × State B)
      → length turns ≡ 1000
      → Inserted 0 turns out
      → Returns
          (λ ret v. (ret ≡ pos 0) × Left out.0 v.live)
          (let u = if out.0 && check_from B 1000 0 out.1 then remove_one B out.1 else out.1 in
            (free_all B (B.elements u.rht) >> λ v. done (pos 0) v) u)
  finish turns s (false, t) len ins =
      let is = ins.filled in
      Returns-bind _ _ (free_all B (B.elements t.rht) t) _
        (free_all_lem (B.elements t.rht) t is.apart (λ a h. is.owns a ∙ h))
        λ _ v h. (refl, λ a. ground (arith, h a, is.owns a))
  finish turns s (true, t) len ins =
      let is : Filled 1000 t =
        subst (λ n. Filled n t) (ins.whole refl ∙ ap (λ n. 0 + n) len) ins.filled in
      let (e, q, v) = is.below 1 (omega arith) in
      let member : (a : Ptr)
          → holds a (B.elements (B.remove_fast e.addr t.rht))
            ≡ (if e.addr == a then false else holds a (B.elements t.rht)) =
        λ a.
          ap (holds a) (B.elements-remove e.addr t.rht)
          ∙ holds-without a e.addr (B.elements t.rht) is.apart in
      rw
        (
          check_from_lem 1000 0 1000 t is (omega arith),
          remove_one-eq t e (B.lookup_lem t.rht 1 ∙ q),
        )
        (Returns-bind _ _ (free_all B (B.elements (B.remove_fast e.addr t.rht)) _) _
          (free_all_lem (B.elements (B.remove_fast e.addr t.rht))
            (record t { rht = B.remove_fast e.addr t.rht })
            (subst Apart (sym (B.elements-remove e.addr t.rht))
              (Apart-without e.addr (B.elements t.rht) is.apart))
            (λ a h. ground (arith, is.owns a, member a, h)))
          λ _ w h. (
            refl,
            (
              e.addr,
              λ a.
                  ground (arith, h a, member a, is.owns a, holds-find_key 1 (B.elements t.rht) e q),
            ),
          ))

  -- From an empty table, if `kzalloc` gives unused memory whenever it gives any, `start_init` returns
  -- 0 and does not crash. If an allocation or an insertion fails, all memory has been freed; if none
  -- does, exactly one block is left allocated.
  pub start_init-Left :
      (turns : List (Option Ptr × Bool)) (s : State B)
      → length turns ≡ 1000
      → Filled 0 s
      → Unused turns 0 s
      → Returns (λ ret v. (ret ≡ pos 0) × Left (all_succeed turns) v.live) (start_init B turns s)
  unfolding start_init
  start_init-Left turns s len is u =
      let ins = insert_from_lem turns 0 s is u in
      subst (λ b. Returns (λ ret v. (ret ≡ pos 0) × Left b v.live) (start_init B turns s)) ins.flag
        (finish turns s (insert_from B turns 0 s) len ins)
