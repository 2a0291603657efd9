-- ===== src/Hashmap/Laws.antt =====
-- Adding and removing, against a map from keys to their names, the newest first.
use learn_k.Base.{
  ℕ, ◌<◌, ◌≡◌, refl, ap, sym, ◌∙◌, subst, true, false, Option, none, some, List, ◌∷◌, arith, ◌==◌,
  ==_iff, ==_refl, if◌then◌else◌, Bool-cases, inl, inr,
}
use learn_k.Base.Int.{ℤ, eqb_ℤ}
use learn_k.Kernel.{done, Returns}
use learn_k.Container.Links.{Ptr}
use learn_k.Rbtree.{set_live}
use learn_k.Rbtree.Entries.{holds, Apart, Apart-without, holds-without}
use learn_k.Hashmap.{
  MyData, first_with, HashApi, State, add_element, remove_element, get_element, remove_key,
}
use learn_k.Hashmap.Chains.{
  eqb_ℤ→≡, names, tail, name_of, first, first_with-names, first_with-holds, first_with-none,
  names-without, without_absent,
}

abbrev pub Names : Type 0
Names = ℤ → List ℕ

abbrev pub push_name : Names → ℤ → ℕ → Names
push_name m key name j = if eqb_ℤ key j then name ∷ m j else m j

abbrev pub pop_name : Names → ℤ → Names
pop_name m key j = if eqb_ℤ j key then tail (m j) else m j

eqb_sym : (j key : ℤ) → eqb_ℤ j key ≡ eqb_ℤ key j
eqb_sym j key = ground arith

module _ (B : HashApi) where
  -- The chains hold the names under each key; every element is in one chain, once, and the elements
  -- of the chains are exactly what is allocated.
  pub record IsTable (s : State B) (m : Names) : Type 0 where
    pub reads : (key : ℤ) → names key (B.chain s.ht (B.hash key)) ≡ m key
    pub inner : (b : ℕ) → Apart (B.chain s.ht b)
    pub owns : (a : Ptr) (b : ℕ) → holds a (B.chain s.ht b) ≡ true → s.live a ≡ true
    pub apart :
        (a : Ptr) (b c : ℕ)
        → holds a (B.chain s.ht b) ≡ true
        → holds a (B.chain s.ht c) ≡ true
        → b ≡ c
    pub owned :
        (a : Ptr) → s.live a ≡ true → (b : ℕ) × (b < 128) × (holds a (B.chain s.ht b) ≡ true)

  same_hash : (j key : ℤ) → eqb_ℤ j key ≡ true → (B.hash j == B.hash key) ≡ true
  same_hash j key h = rw (eqb_ℤ→≡ j key h) (==_refl (B.hash key))

  module _ (s : State B) (m : Names) (is : IsTable s m) where
    absent : (a : Ptr) (b : ℕ) → s.live a ≡ false → holds a (B.chain s.ht b) ≡ false
    absent a b f = ground (arith, is.owns a b)

    pub add_element-IsTable :
        (p : Ptr) (key : ℤ) (name : ℕ)
        → s.live p ≡ false
        → IsTable (add_element B (some p) key name s) (push_name m key name)
    unfolding add_element
    add_element-IsTable p key name f = record {
      reads = λ j.
          ground
            (arith, B.chain-add new s.ht (B.hash j), is.reads j, same_hash j key, eqb_sym j key);
      inner = λ b. subst Apart (sym (B.chain-add new s.ht b)) (inner b);
      owns = λ a b. ground (arith, B.chain-add new s.ht b, is.owns a b);
      apart = λ a b c. ground (
        arith,
        B.chain-add new s.ht b,
        B.chain-add new s.ht c,
        absent p b f,
        absent p c f,
        is.apart a b c,
      );
      owned = λ a h. elim (Bool-cases (a == p)) [
        | inl e ↦ (
          B.hash key,
          B.hash-below key,
          ground (arith, B.chain-add new s.ht (B.hash key), e, ==_iff a p),
        )
        | inr n ↦
            let (b, lt, k) = is.owned a (ground (arith, h)) in
            (b, lt, ground (arith, B.chain-add new s.ht b, k))
      ];
    }
      where
        new : MyData
        new = record { addr = p; key = key; value = name }

        inner : (b : ℕ) → Apart (if b == B.hash key then new ∷ B.chain s.ht b else B.chain s.ht b)
        inner b = ground (arith, is.inner b, absent p b f)

    -- An element taken out and freed.
    pub erased :
        (x : Ptr)
        → IsTable
            (record { ht = B.hash_del x s.ht; live = set_live s.live x false })
            (λ j. names j (B.chain (B.hash_del x s.ht) (B.hash j)))
    erased x = record {
      reads = λ j. refl;
      inner = λ b.
          subst Apart (sym (B.chain-del x s.ht b)) (Apart-without x (B.chain s.ht b) (is.inner b));
      owns = λ a b. ground (arith, member a b, is.owns a b);
      apart = λ a b c. ground (arith, member a b, member a c, is.apart a b c);
      owned = λ a l.
          let (b, lt, k) = is.owned a (ground (arith, l)) in
          (b, lt, ground (arith, member a b, k, l));
    }
      where
        member :
            (a : Ptr) (b : ℕ)
            → holds a (B.chain (B.hash_del x s.ht) b)
              ≡ (if x == a then false else holds a (B.chain s.ht b))
        member a b =
            ap (holds a) (B.chain-del x s.ht b) ∙ holds-without a x (B.chain s.ht b) (is.inner b)

    -- The newest element of a key, taken out.
    deleted :
        (key : ℤ) (e : MyData)
        → first_with key (B.chain s.ht (B.hash key)) ≡ some e
        → IsTable
            (record { ht = B.hash_del e.addr s.ht; live = set_live s.live e.addr false })
            (pop_name m key)
    deleted key e h =
        let rest = erased e.addr in
        record {
          reads = λ j. elim (Bool-cases (B.hash j == B.hash key)) [
            | inl same_chain ↦
                let q = (==_iff (B.hash j) (B.hash key)).0 same_chain in
                ground (
                  arith,
                  q,
                  ap (B.chain s.ht) q,
                  B.chain-del e.addr s.ht (B.hash j),
                  names-without j key (B.chain s.ht (B.hash key)) e (is.inner (B.hash key)) h,
                  is.reads j,
                )
            | inr n ↦ ground (
              arith,
              B.chain-del e.addr s.ht (B.hash j),
              same_hash j key,
              without_absent e.addr (B.chain s.ht (B.hash j)),
              is.apart e.addr (B.hash j) (B.hash key),
              first_with-holds key (B.chain s.ht (B.hash key)) e h,
              is.reads j,
            )
          ];
          inner = rest.inner;
          owns = rest.owns;
          apart = rest.apart;
          owned = rest.owned;
        }

    pub get_element-names : (key : ℤ) → name_of (get_element B key s) ≡ first (m key)
    unfolding get_element
    get_element-names key =
        first_with-names key (B.chain s.ht (B.hash key)) ∙ ap first (is.reads key)

    pub remove_key-IsTable :
        (key : ℤ) → Returns (λ _ s'. IsTable s' (pop_name m key)) (remove_key B key s)
    unfolding remove_key get_element remove_element
    remove_key-IsTable key = go (first_with key (B.chain s.ht (B.hash key))) refl
      where
        go :
            (q : Option MyData)
            → first_with key (B.chain s.ht (B.hash key)) ≡ q
            → Returns
                (λ _ s'. IsTable s' (pop_name m key))
                (elim q [ none ↦ done tt s | some ptr ↦ remove_element B ptr.addr s ])
        go none h = record {
          reads = λ j. elim (Bool-cases (eqb_ℤ j key)) [
            | inl e ↦
                rw (e, eqb_ℤ→≡ j key e)
                  (ground (arith, is.reads key, first_with-none key (B.chain s.ht (B.hash key)) h))
            | inr n ↦ rw n (is.reads j)
          ];
          inner = is.inner;
          owns = is.owns;
          apart = is.apart;
          owned = is.owned;
        }
        go (some e) h =
            let allocated =
              is.owns e.addr (B.hash key) (first_with-holds key (B.chain s.ht (B.hash key)) e h) in
            rw allocated (deleted key e h)
