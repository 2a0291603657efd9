-- ===== src/Container/Ends.antt =====
-- Adding at either end and taking from the front.
use learn_k.Base.{
  ◌+◌, ◌-◌, ◌%◌, ◌^◌, ◌≡◌, ◌≢◌, refl, false, ◌||◌, Option, none, some, [], ◌∷◌, ◌++◌, arith, ◌==◌,
}
use learn_k.Base.Int.{ℤ}
use learn_k.Kernel.{done, Returns}
use learn_k.Container.Links.{Ptr, ListApi}
use learn_k.Container.Core.{
  Store, Handle, put_value, link_list_push, link_list_pop, enqueue, dequeue, stack_push, stack_pop,
}
use learn_k.Container.Cells.{
  Cells, addrs, Holds, IsList, IsFresh, addrs-append, Holds-append, Holds-put,
}

module _ (K : ListApi) where
  -- What an insertion of `v` at the address `p` leaves: the handle counts one node more, and the
  -- list is `ys`.
  abbrev pub Added : Handle → Cells → Handle → Store K.Links → Type 0
  Added q ys q' s' = (q' ≡ record q { count = (q.count + 1) % 2 ^ 32 }) × IsList K s' q.head ys

  -- What a removal leaves: the first value, the handle that counts one node less, the other nodes,
  -- and the first node freed.
  abbrev pub Taken : Handle → Ptr → ℤ → Cells → Option ℤ × Handle → Store K.Links → Type 0
  Taken q p v xs out s' =
      (out.0 ≡ some v)
      × (out.1 ≡ record q { count = q.count - 1 })
      × IsList K s' q.head xs
      × (s'.value p ≡ none)

  module _ (s : Store K.Links) (q : Handle) (xs : Cells) (is : IsList K s q.head xs) where
    module _ (p : Ptr) (v : ℤ) (fresh : IsFresh s p q.head xs) where
      put-Holds : Holds (put_value s.value p (some v)) ((p, v) ∷ xs)
      put-Holds = (ground arith, Holds-put s.value p (some v) xs (ground arith) is.held)

      -- `enqueue` appends.
      pub enqueue_lem : Returns (Added q (xs ++ ((p, v) ∷ []))) (enqueue K (some p) q v s)
      unfolding enqueue
      enqueue_lem = (
        refl,
        record {
          ring = rw (addrs-append xs ((p, v) ∷ [])) (
              K.Ring-add_tail _ p q.head (addrs xs)
                (K.Ring-init_other s.links p q.head (addrs xs) is.ring fresh) fresh);
          held = Holds-append _ xs ((p, v) ∷ []) put-Holds.1 (put-Holds.0, tt);
        },
      )

      -- `link_list_push` appends, as `enqueue` does.
      pub link_list_push_lem :
          Returns (Added q (xs ++ ((p, v) ∷ []))) (link_list_push K (some p) q v s)
      unfolding link_list_push enqueue
      link_list_push_lem = enqueue_lem

      -- `stack_push` puts in front.
      pub stack_push_lem : Returns (Added q ((p, v) ∷ xs)) (stack_push K (some p) q v s)
      unfolding stack_push
      stack_push_lem = (
        refl,
        record {
          ring =
              K.Ring-add _ p q.head (addrs xs)
                (K.Ring-init_other s.links p q.head (addrs xs) is.ring fresh) fresh;
          held = put-Holds;
        },
      )

  module _ (s : Store K.Links) (q : Handle) (p : Ptr) (v : ℤ) (xs : Cells)
      (is : IsList K s q.head ((p, v) ∷ xs)) (counted : q.count ≢ 0) where
    not_nothing : ((q.count == 0) || K.list_empty s.links q.head) ≡ false
    not_nothing = ground (arith, K.empty-cons s.links q.head p (addrs xs) is.ring)

    abbrev left : Store K.Links
    left = record { links = K.list_del p s.links; value = put_value s.value p none }

    taken : Taken q p v xs (some v, record q { count = q.count - 1 }) left
    taken = (
      refl,
      refl,
      record {
        ring = K.Ring-del s.links q.head p (addrs xs) is.ring;
        held =
            Holds-put s.value p none xs (K.distinct s.links q.head (p ∷ addrs xs) is.ring).1.0
              is.held.1;
      },
      ground arith,
    )

    dequeue-eq : dequeue K q s ≡ done (some v, record q { count = q.count - 1 }) left
    unfolding dequeue
    dequeue-eq =
        ground (arith, not_nothing, K.next-cons s.links q.head p (addrs xs) is.ring, is.held.0)

    -- `dequeue` takes the first.
    pub dequeue_lem : Returns (Taken q p v xs) (dequeue K q s)
    dequeue_lem = rw dequeue-eq taken

    -- So do `link_list_pop` and `stack_pop`.
    pub link_list_pop_lem : Returns (Taken q p v xs) (link_list_pop K q s)
    unfolding link_list_pop dequeue
    link_list_pop_lem = dequeue_lem

    pub stack_pop_lem : Returns (Taken q p v xs) (stack_pop K q s)
    unfolding stack_pop dequeue
    stack_pop_lem = dequeue_lem

  -- Taking from an empty list does nothing.
  module _ (s : Store K.Links) (q : Handle) (is : IsList K s q.head []) where
    pub dequeue-nil : dequeue K q s ≡ done (none, q) s
    unfolding dequeue
    dequeue-nil = ground (arith, K.empty-nil s.links q.head is.ring)

    pub link_list_pop-nil : link_list_pop K q s ≡ done (none, q) s
    unfolding link_list_pop
    link_list_pop-nil = ground (arith, K.empty-nil s.links q.head is.ring)

    pub stack_pop-nil : stack_pop K q s ≡ done (none, q) s
    unfolding stack_pop
    stack_pop-nil = ground (arith, K.empty-nil s.links q.head is.ring)
