-- ===== src/Container/Delete.antt =====
-- The life of a container: `add_link_list` and `del_link_list`.
use learn_k.Base.{
  ℕ, zero, suc, ◌<◌, ◌≡◌, refl, ap, ◌∙◌, true, false, some, List, [], ◌∷◌, arith, ◌==◌, length,
}
use learn_k.Kernel.{Returns, Returns-mono}
use learn_k.Container.Links.{Ptr, ListApi}
use learn_k.Container.Core.{Store, Handle, add_container, del_loop, del_link_list}
use learn_k.Container.Cells.{Cells, addrs, IsList}
use learn_k.Container.Service.{IsCounted}
use learn_k.Container.Walk.{first}

module _ (K : ListApi) where
  -- A new container is an empty list.
  pub add_container_lem :
      (p : Ptr) (s : Store K.Links)
      → Returns (λ q s'. IsCounted K s' q [] × (s'.value ≡ s.value)) (add_container K (some p) s)
  unfolding add_container
  add_container_lem p s =
      (record { list = record { ring = K.Ring-init s.links p; held = tt }; count = refl }, refl)

  second : (l : K.Links) (h x : Ptr) (xs : List Ptr) → K.Ring l h (x ∷ xs) → K.next l x ≡ first xs h
  second l h x [] r = K.next-cons l x h [] (K.rotate l h x [] r)
  second l h x (y ∷ ys) r = K.next-cons l x y _ (K.rotate l h x (y ∷ ys) r)

  next_first : (l : K.Links) (h : Ptr) (xs : List Ptr) → K.Ring l h xs → K.next l h ≡ first xs h
  next_first l h [] r = K.next-nil l h r
  next_first l h (x ∷ xs) r = K.next-cons l h x xs r

  del_loop_lem :
      (xs : List Ptr) (fuel : ℕ) (s : Store K.Links) (h p idx : Ptr)
      → K.Ring s.links h xs
      → p ≡ first xs h
      → (idx ≡ K.next s.links p)
      → length xs < fuel
      → Returns (λ _ s'. K.Ring s'.links h [] × (s'.value ≡ s.value)) (del_loop K fuel h p idx s)
  unfolding del_loop
  del_loop_lem xs zero s h p idx r e i f = absurd (omega arith)
  del_loop_lem [] (suc fuel) s h p idx r e i f =
      let end : (p == h) ≡ true = ground arith in rw end (r, refl)
  del_loop_lem (x ∷ xs) (suc fuel) s h p idx r e i f =
      let inside : (p == h) ≡ false = ground (arith, (K.distinct s.links h (x ∷ xs) r).0) in
      rw (inside, e)
        (del_loop_lem xs fuel (record s { links = K.list_del x s.links }) h idx
          (K.next (K.list_del x s.links) idx) (K.Ring-del s.links h x xs r)
          (i ∙ ap (K.next s.links) e ∙ second s.links h x xs r) refl (omega arith))

  length-addrs : (xs : Cells) → length (addrs xs) ≡ length xs
  length-addrs [] = refl
  length-addrs ((p, v) ∷ xs) = ap suc (length-addrs xs)

  -- `del_link_list` ends, with every node out of the list, and frees none of them.
  pub del_link_list_lem :
      (fuel : ℕ) (s : Store K.Links) (l : Handle) (xs : Cells)
      → IsList K s l.head xs
      → length xs < fuel
      → Returns (λ _ s'. IsList K s' l.head [] × (s'.value ≡ s.value)) (del_link_list K fuel l s)
  unfolding del_link_list
  del_link_list_lem fuel s l xs is enough =
      Returns-mono _ _
        (del_loop K fuel l.head (K.next s.links l.head) (K.next s.links (K.next s.links l.head)) s)
        (λ _ s' h. (record { ring = h.0; held = tt }, h.1))
        (del_loop_lem (addrs xs) fuel s l.head _ _ is.ring
          (next_first s.links l.head (addrs xs) is.ring) refl (omega (arith, length-addrs xs)))
