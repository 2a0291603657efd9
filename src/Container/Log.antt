-- ===== src/Container/Log.antt =====
-- What `list_init` of src/list/main.c logs.
use learn_k.Base.{
  ℕ, ◌<◌, ◌≡◌, refl, ap, ◌∙◌, Bool, true, false, Option, none, some, List, [], ◌∷◌, ◌++◌, arith,
  length, if◌then◌else◌,
}
use learn_k.Base.Int.{ℤ, pos}
use learn_k.Kernel.{val, Returns, Returns-bind}
use learn_k.Container.Links.{Ptr, near, near-has, ListApi}
use learn_k.Container.Core.{
  Store, Handle, Cmd, add_container, len, link_list_push, link_list_insert, link_list_remove,
  link_list_pop, del_link_list, enqueue, dequeue, stack_push, stack_pop,
}
use learn_k.Container.Cells.{Cells, addrs, values}
use learn_k.Container.Service.{
  IsCounted, Serves, adds_one, takes_one, queue_Serves, list_Serves, stack_Serves, at_end, behind,
  in_front, before,
}
use learn_k.Container.Delete.{add_container_lem, del_link_list_lem}
use learn_k.Container.Splice.{link_list_insert_lem, link_list_remove_lem}
use learn_k.Container.Text.{to_string}
use learn_k.Container.Printed.{render}
use learn_k.Container.ReadBack.{to_string-read_list}
use learn_k.Container.Init.{
  Answers, Line, shows, node, text_of, show, fill, drain, finish, list_part, plain_part, list_init,
}
use learn_k.Printf.{path_max}
use learn_k.Printf.Decimal.{decimal, digits}

-- what a part logs that has the values `i`, `j` and `k`
abbrev pub logged : Bool → (i j k : ℤ) → List Line
logged room i j k =
    shows (if room then some (render (i ∷ j ∷ k ∷ [])) else none)
    ∷ node i 2
    ∷ node j 1
    ∷ node k 0
    ∷ []

short :
    (length (render (pos 1 ∷ pos 2 ∷ pos 3 ∷ [])) < path_max)
    × (length (render (pos 3 ∷ pos 2 ∷ pos 1 ∷ [])) < path_max)
unfolding decimal digits
short = (omega arith, omega arith)

module _ (K : ListApi) where
  -- The string is printed; with no memory it is a null pointer.
  show_lem :
      (fuel : ℕ) (a : Answers) (q : Handle) (xs : Cells) (s : Store K.Links)
      → IsCounted K s q xs
      → length xs < fuel
      → length (render (values xs)) < path_max
      → Returns
          (λ line s'.
            (line ≡ shows (if a.room then some (render (values xs)) else none)) × (s' ≡ s))
          (show K fuel a q s)
  unfolding show to_string
  show_lem fuel a q xs s c enough fits = go a.room
    where
      go :
          (room : Bool)
          → Returns
              (λ line s'.
                (line ≡ shows (if room then some (render (values xs)) else none)) × (s' ≡ s))
              (show K fuel (record a { room = room }) q s)
      go false = (refl, refl)
      go true =
          Returns-bind _ _ (to_string K fuel true a.garbage q.head s) _
            (to_string-read_list K fuel s q.head xs a.garbage c.list enough fits)
            (λ out s' r. (ap shows (ap text_of r.1 ∙ ap some r.2), r.4))

  -- the three nodes in the order that `at` puts them in
  abbrev filled : (Ptr × ℤ → Cells → Cells) → Answers → Cells
  filled at a = at (a.node_3, pos 3) (at (a.node_2, pos 2) (at (a.node_1, pos 1) []))

  -- The nodes are apart from one another and from the container.
  abbrev pub Fresh : (Ptr × ℤ → Cells → Cells) → Answers → Type 0
  Fresh at a =
      (near a.node_1 (a.head ∷ []) ≡ false)
      × (near a.node_2 (a.head ∷ addrs (at (a.node_1, pos 1) [])) ≡ false)
      × (near a.node_3 (a.head ∷ addrs (at (a.node_2, pos 2) (at (a.node_1, pos 1) []))) ≡ false)

  module _ (add : Option Ptr → Handle → ℤ → Cmd K Handle)
      (take : Handle → Cmd K (Option ℤ × Handle)) (place : ℤ → List ℤ → List ℤ)
      (at : Ptr × ℤ → Cells → Cells) (d : Serves K add take place at) where
    fill_lem :
        (a : Answers) (q : Handle) (s : Store K.Links)
        → q.head ≡ a.head
        → IsCounted K s q []
        → Fresh at a
        → Returns
            (λ q' s'. (q'.head ≡ a.head) × IsCounted K s' q' (filled at a))
            (fill K add take a q s)
    unfolding fill
    fill_lem a q s e c f =
        Returns-bind _ _ (add (some a.node_1) q (pos 1) s) _
          (adds_one K add take place at d a.head s q [] a.node_1 (pos 1) e c
            (near-has _ (a.head ∷ []) f.0) (omega arith))
          λ q₁ s₁ h₁.
            Returns-bind _ _ (add (some a.node_2) q₁ (pos 2) s₁) _
              (adds_one K add take place at d a.head s₁ q₁ (at (a.node_1, pos 1) []) a.node_2
                (pos 2) h₁.0 h₁.1 (near-has _ (a.head ∷ addrs (at (a.node_1, pos 1) [])) f.1)
                (omega (arith, d.length_at a.node_1 (pos 1) [])))
              λ q₂ s₂ h₂.
                adds_one K add take place at d a.head s₂ q₂
                  (at (a.node_2, pos 2) (at (a.node_1, pos 1) [])) a.node_3 (pos 3) h₂.0 h₂.1
                  (near-has _ (a.head ∷ addrs (at (a.node_2, pos 2) (at (a.node_1, pos 1) []))) f.2)
                  (omega (
                    arith,
                    d.length_at a.node_1 (pos 1) [],
                    d.length_at a.node_2 (pos 2) (at (a.node_1, pos 1) []),
                  ))

    -- Three values come out, with the lengths that are left.
    drain_lem :
        (q : Handle) (s : Store K.Links) (x y z : Ptr × ℤ)
        → IsCounted K s q (x ∷ y ∷ z ∷ [])
        → Returns
            (λ out s'.
              (out.0 ≡ node x.1 2 ∷ node y.1 1 ∷ node z.1 0 ∷ []) × IsCounted K s' out.1 [])
            (drain K add take q s)
    unfolding drain len
    drain_lem q s (p₁, v₁) (p₂, v₂) (p₃, v₃) c =
        Returns-bind _ _ (take q s) _
          (takes_one K add take place at d q.head s q p₁ v₁ ((p₂, v₂) ∷ (p₃, v₃) ∷ []) refl c)
          λ o₁ s₁ h₁.
            Returns-bind _ _ (take o₁.1 s₁) _
              (takes_one K add take place at d q.head s₁ o₁.1 p₂ v₂ ((p₃, v₃) ∷ []) h₁.1 h₁.2)
              λ o₂ s₂ h₂.
                Returns-bind _ _ (take o₂.1 s₂) _
                  (takes_one K add take place at d q.head s₂ o₂.1 p₃ v₃ [] h₂.1 h₂.2)
                  λ o₃ s₃ h₃. (rw (h₁.0, h₂.0, h₃.0, h₁.2.count, h₂.2.count, h₃.2.count) refl, h₃.2)

    finish_lem :
        (fuel : ℕ) (a : Answers) (q : Handle) (s : Store K.Links) (x y z : Ptr × ℤ)
        → IsCounted K s q (x ∷ y ∷ z ∷ [])
        → 3 < fuel
        → length (render (x.1 ∷ y.1 ∷ z.1 ∷ [])) < path_max
        → Returns (λ lines _. lines ≡ logged a.room x.1 y.1 z.1) (finish K add take fuel a q s)
    unfolding finish
    finish_lem fuel a q s x y z c enough fits =
        Returns-bind _ _ (show K fuel a q s) _
          (show_lem fuel a q (x ∷ y ∷ z ∷ []) s c (omega arith) fits)
          λ line s' h.
            Returns-bind _ _ (drain K add take q s') _ (drain_lem q s' x y z (rw h.1 c))
              λ out s'' g.
                Returns-bind _ _ (del_link_list K fuel out.1 s'') _
                  (del_link_list_lem K fuel s'' out.1 [] g.1.list (omega arith))
                  λ _ _ _. rw (h.0, g.0) refl

    plain_part_lem :
        (fuel : ℕ) (a : Answers) (s : Store K.Links) (x y z : Ptr × ℤ)
        → filled at a ≡ x ∷ y ∷ z ∷ []
        → Fresh at a
        → 3 < fuel
        → length (render (x.1 ∷ y.1 ∷ z.1 ∷ [])) < path_max
        → Returns (λ lines _. lines ≡ logged a.room x.1 y.1 z.1) (plain_part K add take fuel a s)
    unfolding plain_part add_container
    plain_part_lem fuel a s x y z e f enough fits =
        Returns-bind _ _ (fill K add take a _ _) _
          (fill_lem a _ _ refl (add_container_lem K a.head s).0 f)
          λ q' s' h. finish_lem fuel a q' s' x y z (rw (← e) (h.1)) enough fits

  list_part_lem :
      (fuel : ℕ) (a : Answers) (s : Store K.Links)
      → Fresh behind a
      → near a.node_4 (a.head ∷ a.node_1 ∷ a.node_2 ∷ a.node_3 ∷ []) ≡ false
      → 3 < fuel
      → Returns (λ lines _. lines ≡ logged a.room (pos 1) (pos 2) (pos 3)) (list_part K fuel a s)
  unfolding list_part add_container
  list_part_lem fuel a s f apart enough =
      Returns-bind _ _ (fill K (link_list_push K) (link_list_pop K) a _ _) _
        (fill_lem (link_list_push K) (link_list_pop K) at_end behind (list_Serves K) a _ _ refl
          (add_container_lem K a.head s).0 f)
        λ l s₁ h.
          Returns-bind _ _ (link_list_insert K fuel (some a.node_4) l (pos 1) (pos 4) s₁) _
            (link_list_insert_lem K fuel s₁ l (n₁ ∷ []) n₂ (n₃ ∷ []) h.1.list
              (omega (arith, h.1.count)) (omega (arith, h.1.count)) (omega arith) a.node_4 (pos 4)
              (rw h.0 (near-has _ (a.head ∷ a.node_1 ∷ a.node_2 ∷ a.node_3 ∷ []) apart)))
            λ _ s₂ g.
              Returns-bind _ _ (link_list_remove K fuel l (pos 2) s₂) _
                (link_list_remove_lem K fuel s₂ l (n₁ ∷ n₂ ∷ []) n₃ (a.node_4, pos 4) [] g
                  (omega (arith, h.1.count)) (omega (arith, h.1.count)) (omega arith))
                λ _ s₃ k.
                  finish_lem (link_list_push K) (link_list_pop K) at_end behind (list_Serves K) fuel
                    a l s₃ n₁ n₂ n₃ (record { list = k.0; count = h.1.count }) enough short.0
    where
      n₁ : Ptr × ℤ
      n₁ = (a.node_1, pos 1)

      n₂ : Ptr × ℤ
      n₂ = (a.node_2, pos 2)

      n₃ : Ptr × ℤ
      n₃ = (a.node_3, pos 3)

  -- Where the 24 bytes of every node and container are apart from the others', `list_init` ends and returns 0. Of
  -- the list it logs "[1,2,3]", and then 1, 2 and 3, although it inserts 4 at 1 and removes at 2; of the
  -- queue the same; and of the stack "[3,2,1]", and then 3, 2 and 1. Where there is no memory for the
  -- text of a container, a null pointer is logged for it.
  pub list_init-logged :
      (fuel : ℕ) (list queue stack : Answers) (s : Store K.Links)
      → Fresh behind list
      → near list.node_4 (list.head ∷ list.node_1 ∷ list.node_2 ∷ list.node_3 ∷ []) ≡ false
      → Fresh behind queue
      → Fresh before stack
      → 3 < fuel
      → Returns
          (λ out _. out ≡ (
            logged list.room (pos 1) (pos 2) (pos 3)
                ++ (logged queue.room (pos 1) (pos 2) (pos 3)
                    ++ logged stack.room (pos 3) (pos 2) (pos 1)),
            val 0,
          ))
          (list_init K fuel list queue stack s)
  unfolding list_init
  list_init-logged fuel list queue stack s f apart g h enough =
      Returns-bind _ _ (list_part K fuel list s) _ (list_part_lem fuel list s f apart enough)
        λ l₁ s₁ e₁.
          Returns-bind _ _ (plain_part K (enqueue K) (dequeue K) fuel queue s₁) _
            (plain_part_lem (enqueue K) (dequeue K) at_end behind (queue_Serves K) fuel queue s₁ _ _
              _ refl g enough short.0)
            λ l₂ s₂ e₂.
              Returns-bind _ _ (plain_part K (stack_push K) (stack_pop K) fuel stack s₂) _
                (plain_part_lem (stack_push K) (stack_pop K) in_front before (stack_Serves K) fuel
                  stack s₂ _ _ _ refl h enough short.1)
                λ l₃ s₃ e₃. rw (e₁, e₂, e₃) refl
