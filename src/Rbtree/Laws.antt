-- ===== src/Rbtree/Laws.antt =====
-- Insertion, removal and clearing, against a map from keys to values.
use learn_k.Base.{
  ℕ, zero, suc, ◌<◌, ◌≡◌, refl, ap, sym, ◌∙◌, subst, true, false, Option, none, some, List, [], ◌∷◌,
  arith, if◌then◌else◌, Bool, Bool-cases, inl, inr, length,
}
use learn_k.Kernel.{eexist, Ret, val, err, done, ◌>>◌, Returns}
use learn_k.Container.Links.{Ptr}
use learn_k.Rbtree.Keys.{Order, same}
use learn_k.Rbtree.Entries.{
  Entry, without, holds, Apart, Sorted, find, insert_in, Sorted-insert_in, find-insert_in,
  holds-insert_in, Apart-insert_in, holds-find, find-without, Sorted-without, holds-without,
  Apart-without,
}
use learn_k.Rbtree.{
  Tree, entries, head, RbApi, State, set_live, kfree, search_node, place, insert_entry,
  remove_entry, clear,
}
use learn_k.Rbtree.Search.{search_node_lem, Placed, place_lem}

abbrev pub value_of : {K V : Type 0} → Option (Entry K V) → Option V
value_of none = none
value_of (some e) = some e.value

eq_of_same : {K : Type 0} ⦃o : Order K⦄ (j k : K) → same j k ≡ true → j ≡ k
eq_of_same ⦃o⦄ j k h = ground (arith, o.lt_total j k)

module _ {K V : Type 0} ⦃o : Order K⦄ where
  abbrev pub put_key : (K → Option V) → K → V → K → Option V
  put_key m k v j = if same j k then some v else m j

  abbrev pub drop_key : (K → Option V) → K → K → Option V
  drop_key m k j = if same j k then none else m j

  -- The entries are in order, are exactly what is allocated, and map keys to values as `m` does.
  pub record Reads (es : List (Entry K V)) (live : Ptr → Bool) (m : K → Option V) : Type 0 where
    pub sorted : Sorted es
    pub apart : Apart es
    pub owns : (a : Ptr) → live a ≡ holds a es
    pub reads : (k : K) → value_of (find k es) ≡ m k

  abbrev pub IsMap : State K V → (K → Option V) → Type 0
  IsMap s m = Reads (entries s.root) s.live m

  Reads-insert :
      (es : List (Entry K V)) (live : Ptr → Bool) (m : K → Option V) (e : Entry K V)
      → Reads es live m
      → find e.key es ≡ none
      → live e.addr ≡ false
      → Reads (insert_in e es) (set_live live e.addr true) (put_key m e.key e.value)
  Reads-insert es live m e r n f = record {
    sorted = Sorted-insert_in e es n r.sorted;
    apart = Apart-insert_in e es (sym (r.owns e.addr) ∙ f) r.apart;
    owns = λ a. ground (arith, holds-insert_in a e es, r.owns a);
    reads = λ k. ground (arith, find-insert_in k e es n, r.reads k);
  }

  Reads-remove :
      (es : List (Entry K V)) (live : Ptr → Bool) (m : K → Option V) (k : K) (e : Entry K V)
      → Reads es live m
      → find k es ≡ some e
      → Reads (without e.addr es) (set_live live e.addr false) (drop_key m k)
  Reads-remove es live m k e r f = record {
    sorted = Sorted-without e.addr es r.sorted;
    apart = Apart-without e.addr es r.apart;
    owns = λ a. ground (arith, holds-without a e.addr es r.apart, r.owns a);
    reads = λ j. ground (arith, find-without j k es e r.sorted r.apart f, r.reads j);
  }

  Reads-absent :
      (es : List (Entry K V)) (live : Ptr → Bool) (m : K → Option V) (k : K)
      → Reads es live m
      → find k es ≡ none
      → Reads es live (drop_key m k)
  Reads-absent es live m k r n = record {
    sorted = r.sorted;
    apart = r.apart;
    owns = r.owns;
    reads = λ j. elim (Bool-cases (same j k)) [
      | inl eq ↦ rw (eq) (rw (eq_of_same j k eq) (ap value_of n))
      | inr ne ↦ rw ne (r.reads j)
    ];
  }

  module _ (B : RbApi K V) (s : State K V) (m : K → Option V) (is : IsMap s m) where
    -- By what the key had: a new entry, or `-EEXIST` and no change.
    abbrev pub Inserted : K → V → Option V → Ret → State K V → Type 0
    Inserted key value none r s' = (r ≡ val 0) × IsMap s' (put_key m key value)
    Inserted key value (some old) r s' = (r ≡ err eexist) × (s' ≡ s)

    inserted :
        (p : Ptr) (key : K) (value : V)
        → s.live p ≡ false
        → (old : Option V) → m key ≡ old
        → (q : Option (Entry K V → Tree K V)) → Placed key s.root q
        → Returns (Inserted key value old) (elim q [
          | none ↦ done (err eexist) s
          | some hang ↦ done (val 0) (record {
            root = B.rb_insert_color p (hang (record { addr = p; key = key; value = value }));
            live = set_live s.live p true;
          })
        ])
    inserted p key value f none e none pl = absurd (ground (arith, pl.1, is.reads key))
    inserted p key value f (some old) e none pl = (refl, refl)
    inserted p key value f (some old) e (some hang) pl = absurd (ground (arith, pl.0, is.reads key))
    inserted p key value f none e (some hang) pl = (
      refl,
      subst (λ es. Reads es (set_live s.live p true) (put_key m key value))
          (sym (B.entries-rb_insert_color p (hang new) ∙ pl.1 new refl))
          (Reads-insert (entries s.root) s.live m new is pl.0 f),
    )
      where
        new : Entry K V
        new = record { addr = p; key = key; value = value }

    pub insert_entry_lem :
        (p : Ptr) (key : K) (value : V)
        → s.live p ≡ false
        → (old : Option V) → m key ≡ old
        → Returns (Inserted key value old) (insert_entry B (some p) key value s)
    unfolding insert_entry
    insert_entry_lem p key value f old e =
        inserted p key value f old e (place key s.root) (place_lem key s.root is.sorted)

    pub search_node-map : (key : K) → value_of (search_node key s.root) ≡ m key
    search_node-map key = ap value_of (search_node_lem key s.root is.sorted) ∙ is.reads key

    removed :
        (key : K) (q : Option (Entry K V))
        → find key (entries s.root) ≡ q
        → Returns
            (λ out s'. (out ≡ m key) × IsMap s' (drop_key m key))
            (elim q [
              | none ↦ done none s
              | some e ↦
                  (kfree e.addr >> λ t. done (some e.value) t)
                    (record s { root = B.rb_erase e.addr s.root })
            ])
    unfolding kfree
    removed key none f =
        (sym (ap value_of f) ∙ is.reads key, Reads-absent (entries s.root) s.live m key is f)
    removed key (some e) f =
        let allocated : s.live e.addr ≡ true =
          is.owns e.addr ∙ holds-find key (entries s.root) e f in
        rw allocated (
          sym (ap value_of f) ∙ is.reads key,
          subst (λ es. Reads es (set_live s.live e.addr false) (drop_key m key))
              (sym (B.entries-rb_erase e.addr s.root))
              (Reads-remove (entries s.root) s.live m key e is f),
        )

    -- What the key had, which is then gone and freed.
    pub remove_entry_lem :
        (key : K)
        → Returns (λ out s'. (out ≡ m key) × IsMap s' (drop_key m key)) (remove_entry B key s)
    unfolding remove_entry
    remove_entry_lem key =
        subst
          (λ q.
            Returns (λ out s'. (out ≡ m key) × IsMap s' (drop_key m key))
              (elim q [
                | none ↦ done none s
                | some e ↦
                    (kfree e.addr >> λ t. done (some e.value) t)
                      (record s { root = B.rb_erase e.addr s.root })
              ]))
          (sym (search_node_lem key s.root is.sorted))
          (removed key (find key (entries s.root)) refl)

  -- Clearing frees all entries.
  pub clear_lem :
      (B : RbApi K V) (es : List (Entry K V)) (fuel : ℕ) (s : State K V)
      → entries s.root ≡ es
      → Apart es
      → ((a : Ptr) → s.live a ≡ holds a es)
      → length es < fuel
      → Returns (λ _ s'. (entries s'.root ≡ []) × ((a : Ptr) → s'.live a ≡ false)) (clear B fuel s)
  unfolding clear kfree
  clear_lem B es zero s e d l f = absurd (omega arith)
  clear_lem B [] (suc fuel) s e d l f = rw (B.rb_first_lem s.root ∙ ap head e, Returns) (e, l)
  clear_lem B (x ∷ es) (suc fuel) s e d l f =
      let allocated : s.live x.addr ≡ true = ground (arith, l x.addr) in
      let erased : entries (B.rb_erase x.addr s.root) ≡ es =
        ground (arith, B.entries-rb_erase x.addr s.root) in
      rw (B.rb_first_lem s.root ∙ ap head e, Returns, allocated)
        (clear_lem B es fuel
          (record { root = B.rb_erase x.addr s.root; live = set_live s.live x.addr false }) erased
          d.1 (λ a. ground (arith, l a)) (omega arith))
