-- ===== src/Container/Splice.antt =====
-- `link_list_insert` and `link_list_remove`, which act on the node behind the one at the index.
use learn_k.Base.{
  ◌^◌, ℕ, zero, suc, ◌<◌, ◌≡◌, refl, sym, ap, ◌∙◌, subst, false, Option, some, List, [], ◌∷◌, ◌++◌,
  arith, length, length-append,
}
use mathlib.Core.List.{append_assoc}
use learn_k.Base.Int.{ℤ, pos}
use learn_k.Kernel.{done, Returns}
use learn_k.Container.Links.{Ptr, has, ListApi, Ring-enter, has-append}
use learn_k.Container.Core.{
  Store, Handle, put_value, insert_loop, link_list_insert, remove_loop, link_list_remove,
}
use learn_k.Container.Cells.{Cells, addrs, Holds, IsList, IsFresh, addrs-append, Holds-put}
use learn_k.Container.Walk.{first, Walk, Walk-ring, Walk-first, not_empty}

-- `c` put in behind the node that follows `x`, or in front of all nodes if `x` is the last
abbrev pub inserted : {A : Type 0} → List A → A → List A → A → List A
inserted front x [] c = c ∷ (front ++ (x ∷ []))
inserted front x (y ∷ back) c = front ++ (x ∷ y ∷ c ∷ back)

module _ (K : ListApi) where
  enter :
      (l : K.Links) (h p : Ptr) (front back : List Ptr)
      → K.Ring l h (front ++ (p ∷ back))
      → K.Ring l p (back ++ (h ∷ front))
  enter = Ring-enter K.Ring K.rotate

  -- A node added behind a member of the ring, or behind the head.
  Ring-add_at :
      (l : K.Links) (n h : Ptr) (front : List Ptr) (x : Ptr) (back : List Ptr)
      → K.Ring l h (front ++ (x ∷ back))
      → has n (h ∷ (front ++ (x ∷ back))) ≡ false
      → K.Ring (K.list_add n (first back h) l) h (inserted front x back n)
  Ring-add_at l n h front x [] r f = K.Ring-add l n h (front ++ (x ∷ [])) r f
  Ring-add_at l n h front x (y ∷ back) r f =
      let at_y =
        enter l h y (front ++ (x ∷ [])) back
          (subst (K.Ring l h) (sym (append_assoc front (x ∷ []) (y ∷ back))) r) in
      subst (K.Ring (K.list_add n y l) h) (append_assoc front (x ∷ []) (y ∷ n ∷ back)) (
        enter (K.list_add n y l) y h (n ∷ back) (front ++ (x ∷ [])) (
          K.Ring-add l n y (back ++ (h ∷ (front ++ (x ∷ [])))) at_y (
            ground (
              arith,
              has-append n front (x ∷ y ∷ back),
              has-append n back (h ∷ (front ++ (x ∷ []))),
              has-append n front (x ∷ []),
            ))))

  insert_loop_lem :
      (fuel : ℕ) (s : Store K.Links) (h p idx fresh : Ptr) (v : ℤ) (n : ℕ) (front : Cells)
      (x : Ptr × ℤ) (back : Cells)
      → Walk K s.links h p (addrs (front ++ (x ∷ back)))
      → idx ≡ K.next s.links p
      → length front ≡ n
      → n < fuel
      → insert_loop K fuel h p idx (pos n) (some fresh) v s
        ≡ done tt (record {
          links = K.list_add fresh (first (addrs back) h) (K.init_list_head fresh s.links);
          value = put_value s.value fresh (some v);
        })
  unfolding insert_loop
  insert_loop_lem zero s h p idx fresh v n front x back w e l f = absurd (omega arith)
  insert_loop_lem (suc fuel) s h p idx fresh v zero [] (x, u) back w e l f =
      ground (arith, Walk-first K s.links h (K.next s.links x) (addrs back) w.2)
  insert_loop_lem (suc fuel) s h p idx fresh v (suc n) [] x back w e l f = absurd (omega arith)
  insert_loop_lem (suc fuel) s h p idx fresh v zero (y ∷ front) x back w e l f =
      absurd (omega arith)
  insert_loop_lem (suc fuel) s h p idx fresh v (suc n) ((y, u) ∷ front) x back w e l f = ground (
    arith,
    insert_loop_lem fuel s h idx (K.next s.links idx) fresh v n front x back
        (subst (λ q. Walk K s.links h q (addrs (front ++ (x ∷ back))))
          (sym (e ∙ ap (K.next s.links) w.0)) w.2)
        refl (omega arith) (omega arith),
  )

  addrs-inserted :
      (front : Cells) (x : Ptr × ℤ) (back : Cells) (c : Ptr × ℤ)
      → addrs (inserted front x back c) ≡ inserted (addrs front) x.0 (addrs back) c.0
  addrs-inserted front (x, u) [] (n, v) = ap (λ r. n ∷ r) (addrs-append front ((x, u) ∷ []))
  addrs-inserted front (x, u) ((y, w) ∷ back) (n, v) = addrs-append front _

  Holds-inserted :
      (f : Ptr → Option ℤ) (front : Cells) (x : Ptr × ℤ) (back : Cells) (c : Ptr × ℤ)
      → Holds f (front ++ (x ∷ back))
      → f c.0 ≡ some c.1
      → Holds f (inserted front x back c)
  Holds-inserted f [] (x, u) [] (n, v) a e = (e, a)
  Holds-inserted f [] (x, u) ((y, w) ∷ back) (n, v) a e = (a.0, (a.1.0, (e, a.1.1)))
  Holds-inserted f ((z, t) ∷ front) (x, u) [] (n, v) a e = (e, a)
  Holds-inserted f ((z, t) ∷ front) (x, u) ((y, w) ∷ back) (n, v) a e =
      (a.0, Holds-inserted f front (x, u) ((y, w) ∷ back) (n, v) a.1 e)

  remove_loop_lem :
      (fuel : ℕ) (s : Store K.Links) (h p idx : Ptr) (n : ℕ) (front : Cells) (x : Ptr × ℤ)
      (back : Cells)
      → Walk K s.links h p (addrs (front ++ (x ∷ back)))
      → idx ≡ K.next s.links p
      → length front ≡ n
      → n < fuel
      → remove_loop K fuel h p idx (pos n) s
        ≡ done tt (record s { links = K.list_del (first (addrs back) h) s.links })
  unfolding remove_loop
  remove_loop_lem zero s h p idx n front x back w e l f = absurd (omega arith)
  remove_loop_lem (suc fuel) s h p idx zero [] (x, u) back w e l f =
      ground (arith, Walk-first K s.links h (K.next s.links x) (addrs back) w.2)
  remove_loop_lem (suc fuel) s h p idx (suc n) [] x back w e l f = absurd (omega arith)
  remove_loop_lem (suc fuel) s h p idx zero (y ∷ front) x back w e l f = absurd (omega arith)
  remove_loop_lem (suc fuel) s h p idx (suc n) ((y, u) ∷ front) x back w e l f = ground (
    arith,
    remove_loop_lem fuel s h idx (K.next s.links idx) n front x back
        (subst (λ q. Walk K s.links h q (addrs (front ++ (x ∷ back))))
          (sym (e ∙ ap (K.next s.links) w.0)) w.2)
        refl (omega arith) (omega arith),
  )

  -- A ring that loses the node behind `x`.
  Ring-del_at :
      (l : K.Links) (h : Ptr) (front : List Ptr) (x y : Ptr) (back : List Ptr)
      → K.Ring l h (front ++ (x ∷ y ∷ back))
      → K.Ring (K.list_del y l) h (front ++ (x ∷ back))
  Ring-del_at l h front x y back r =
      enter (K.list_del y l) x h back front
        (K.Ring-del l x y (back ++ (h ∷ front)) (enter l h x front (y ∷ back) r))

  Holds-removed :
      (f : Ptr → Option ℤ) (front : Cells) (x y : Ptr × ℤ) (back : Cells)
      → Holds f (front ++ (x ∷ y ∷ back))
      → Holds f (front ++ (x ∷ back)) × (f y.0 ≡ some y.1)
  Holds-removed f [] (x, u) (y, w) back a = ((a.0, a.1.1), a.1.0)
  Holds-removed f ((z, t) ∷ front) (x, u) (y, w) back a =
      let rest = Holds-removed f front (x, u) (y, w) back a.1 in ((a.0, rest.0), rest.1)

  module _ (fuel : ℕ) (s : Store K.Links) (l : Handle) (front : Cells) (x : Ptr × ℤ) (back : Cells)
      (is : IsList K s l.head (front ++ (x ∷ back))) (counted : length front < l.count)
      (small : l.count < 2 ^ 31) (enough : length front < fuel) where
    occupied : K.list_empty s.links l.head ≡ false
    occupied =
        not_empty K s.links l.head (front ++ (x ∷ back)) is.ring
          (omega (arith, length-append front (x ∷ back)))

    walked : Walk K s.links l.head (K.next s.links l.head) (addrs (front ++ (x ∷ back)))
    walked = Walk-ring K s.links l.head (addrs (front ++ (x ∷ back))) is.ring

    insert-eq :
        (p : Ptr) (v : ℤ)
        → link_list_insert K fuel (some p) l (pos (length front)) v s
          ≡ done tt (record {
            links = K.list_add p (first (addrs back) l.head) (K.init_list_head p s.links);
            value = put_value s.value p (some v);
          })
    unfolding link_list_insert
    insert-eq p v = ground (
      arith,
      occupied,
      length-append front (x ∷ back),
      insert_loop_lem fuel s l.head (K.next s.links l.head) (K.next s.links (K.next s.links l.head))
          p v (length front) front x back walked refl refl,
    )

    -- At the index of `x`, if the count is above it, `link_list_insert` puts the new node
    -- behind the node that follows `x`, or in front of the whole list if `x` is the last.
    pub link_list_insert_lem :
        (p : Ptr) (v : ℤ)
        → IsFresh s p l.head (front ++ (x ∷ back))
        → Returns
            (λ _ s'. IsList K s' l.head (inserted front x back (p, v)))
            (link_list_insert K fuel (some p) l (pos (length front)) v s)
    link_list_insert_lem p v fresh = rw (insert-eq p v) (record { ring = ring; held = held })
      where
        cells : List Ptr
        cells = addrs front ++ (x.0 ∷ addrs back)

        flat : addrs (front ++ (x ∷ back)) ≡ cells
        flat = addrs-append front (x ∷ back)

        ring' : K.Ring s.links l.head cells
        ring' = subst (K.Ring s.links l.head) flat is.ring

        fresh' : has p (l.head ∷ cells) ≡ false
        fresh' = subst (λ r. has p (l.head ∷ r) ≡ false) flat fresh

        ring :
            K.Ring
              (K.list_add p (first (addrs back) l.head) (K.init_list_head p s.links))
              l.head
              (addrs (inserted front x back (p, v)))
        ring =
            subst
              (K.Ring (K.list_add p (first (addrs back) l.head) (K.init_list_head p s.links))
                l.head)
              (sym (addrs-inserted front x back (p, v)))
              (Ring-add_at _ p l.head (addrs front) x.0 (addrs back)
                (K.Ring-init_other s.links p l.head cells ring' fresh') fresh')

        held : Holds (put_value s.value p (some v)) (inserted front x back (p, v))
        held =
            Holds-inserted _ front x back (p, v)
              (Holds-put s.value p (some v) (front ++ (x ∷ back)) (ground arith) is.held)
              (ground arith)

    remove-eq :
        link_list_remove K fuel l (pos (length front)) s
        ≡ done tt (record s { links = K.list_del (first (addrs back) l.head) s.links })
    unfolding link_list_remove
    remove-eq = ground (
      arith,
      occupied,
      length-append front (x ∷ back),
      remove_loop_lem fuel s l.head (K.next s.links l.head) (K.next s.links (K.next s.links l.head))
          (length front) front x back walked refl refl,
    )

  -- At the index of `x`, if the count is above it and `x` is not the last, `link_list_remove`
  -- unlinks the node that follows `x`, not `x`; that node stays allocated.
  pub link_list_remove_lem :
      (fuel : ℕ) (s : Store K.Links) (l : Handle) (front : Cells) (x y : Ptr × ℤ) (back : Cells)
      → IsList K s l.head (front ++ (x ∷ y ∷ back))
      → length front < l.count
      → l.count < 2 ^ 31
      → length front < fuel
      → Returns
          (λ _ s'. IsList K s' l.head (front ++ (x ∷ back)) × (s'.value y.0 ≡ some y.1))
          (link_list_remove K fuel l (pos (length front)) s)
  link_list_remove_lem fuel s l front x y back is counted small enough =
      rw (remove-eq fuel s l front x (y ∷ back) is counted small enough) (
        record {
          ring =
              subst (K.Ring (K.list_del y.0 s.links) l.head) (sym (addrs-append front (x ∷ back))) (
                Ring-del_at s.links l.head (addrs front) x.0 y.0 (addrs back)
                  (subst (K.Ring s.links l.head) (addrs-append front (x ∷ y ∷ back)) is.ring));
          held = (Holds-removed s.value front x y back is.held).0;
        },
        (Holds-removed s.value front x y back is.held).1,
      )
