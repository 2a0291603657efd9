-- ===== src/Container/Service.antt =====
-- Whole sequences of insertions and removals: the queue and the list are first in, first out, the
-- stack is last in, first out.
use learn_k.Base.{
  ◌+◌, ◌<◌, ◌^◌, suc, ◌≡◌, ◌≢◌, refl, sym, ap, ◌∙◌, subst, false, Option, none, some, List, [], ◌∷◌,
  ◌++◌, arith, length, length-append,
}
use learn_k.Base.Int.{ℤ}
use learn_k.Kernel.{done, ◌>>=◌, Returns, Returns-mono, Returns-bind}
use learn_k.Container.Links.{Ptr, has, near, near-has, ListApi}
use learn_k.Container.Core.{
  Store, Handle, Cmd, link_list_push, link_list_pop, enqueue, dequeue, stack_push, stack_pop,
}
use learn_k.Container.Cells.{Cells, addrs, values, values-append, IsList, IsFresh}
use learn_k.Container.Ends.{
  Added, Taken, enqueue_lem, link_list_push_lem, stack_push_lem, dequeue_lem, link_list_pop_lem,
  stack_pop_lem, dequeue-nil, link_list_pop-nil, stack_pop-nil,
}

-- an insertion, with the address that `kmalloc` returns for it, or a removal
pub data Op : Type 0 where
  put : Ptr → ℤ → Op
  get : Op

-- what the removals return when the container is a plain list
unfoldable pub replies : (ℤ → List ℤ → List ℤ) → List Op → List ℤ → List (Option ℤ)
replies place [] xs = []
replies place (put p v ∷ ops) xs = replies place ops (place v xs)
replies place (get ∷ ops) [] = none ∷ replies place ops []
replies place (get ∷ ops) (x ∷ xs) = some x ∷ replies place ops xs

-- `kmalloc` returns memory of which 24 bytes are not in use: at `p` these are apart from those of the
-- nodes at that time and of the container, which is at `h`.
unfoldable pub Allocates : (Ptr × ℤ → Cells → Cells) → Ptr → List Op → Cells → Type 0
Allocates at h [] xs = Unit
Allocates at h (put p v ∷ ops) xs =
    (near p (h ∷ addrs xs) ≡ false) × Allocates at h ops (at (p, v) xs)
Allocates at h (get ∷ ops) [] = Allocates at h ops []
Allocates at h (get ∷ ops) (x ∷ xs) = Allocates at h ops xs

abbrev pub behind : Ptr × ℤ → Cells → Cells
behind c xs = xs ++ (c ∷ [])

abbrev pub before : Ptr × ℤ → Cells → Cells
before c xs = c ∷ xs

abbrev pub at_end : ℤ → List ℤ → List ℤ
at_end v xs = xs ++ (v ∷ [])

abbrev pub in_front : ℤ → List ℤ → List ℤ
in_front v xs = v ∷ xs

module _ (K : ListApi) where
  -- A client's calls in order.
  unfoldable pub serve :
      (Option Ptr → Handle → ℤ → Cmd K Handle)
      → (Handle → Cmd K (Option ℤ × Handle))
      → List Op
      → Handle
      → Cmd K (List (Option ℤ))
  serve add take [] q s = done [] s
  serve add take (put p v ∷ ops) q s = (add (some p) q v >>= λ q'. serve add take ops q') s
  serve add take (get ∷ ops) q s =
      (take q >>= λ out. serve add take ops out.1 >>= λ rs. done (out.0 ∷ rs)) s

  -- The list that the handle stands for, with as many nodes as it counts.
  pub record IsCounted (s : Store K.Links) (q : Handle) (xs : Cells) : Type 0 where
    pub list : IsList K s q.head xs
    pub count : q.count ≡ length xs

  -- What a pair of functions must do for the container to serve as a list with insertion `place`.
  pub record Serves (add : Option Ptr → Handle → ℤ → Cmd K Handle)
      (take : Handle → Cmd K (Option ℤ × Handle)) (place : ℤ → List ℤ → List ℤ)
      (at : Ptr × ℤ → Cells → Cells) : Type 0 where
    pub values_at : (p : Ptr) (v : ℤ) (xs : Cells) → values (at (p, v) xs) ≡ place v (values xs)
    pub length_at : (p : Ptr) (v : ℤ) (xs : Cells) → length (at (p, v) xs) ≡ suc (length xs)
    pub adds :
        (s : Store K.Links) (q : Handle) (xs : Cells)
        → IsList K s q.head xs
        → (p : Ptr) (v : ℤ) → IsFresh s p q.head xs
        → Returns (Added K q (at (p, v) xs)) (add (some p) q v s)
    pub takes :
        (s : Store K.Links) (q : Handle) (p : Ptr) (v : ℤ) (xs : Cells)
        → IsList K s q.head ((p, v) ∷ xs)
        → q.count ≢ 0
        → Returns (Taken K q p v xs) (take q s)
    pub takes_nothing :
        (s : Store K.Links) (q : Handle) → IsList K s q.head [] → take q s ≡ done (none, q) s

  module _ (add : Option Ptr → Handle → ℤ → Cmd K Handle)
      (take : Handle → Cmd K (Option ℤ × Handle)) (place : ℤ → List ℤ → List ℤ)
      (at : Ptr × ℤ → Cells → Cells) (d : Serves add take place at) (h : Ptr) where
    -- One insertion, and one removal from a container that is not empty.
    pub adds_one :
        (s : Store K.Links) (q : Handle) (xs : Cells) (p : Ptr) (v : ℤ)
        → q.head ≡ h
        → IsCounted s q xs
        → has p (h ∷ addrs xs) ≡ false
        → suc (length xs) < 2 ^ 32
        → Returns (λ q' s'. (q'.head ≡ h) × IsCounted s' q' (at (p, v) xs)) (add (some p) q v s)
    adds_one s q xs p v e c fresh small =
        Returns-mono (Added K q (at (p, v) xs)) _ (add (some p) q v s)
          (λ q' s' (same, list). (
            ap Handle.head same ∙ e,
            record {
              list = subst (λ a. IsList K s' a (at (p, v) xs)) (sym (ap Handle.head same)) list;
              count = ground (arith, same, c.count, d.length_at p v xs, small);
            },
          ))
          (d.adds s q xs c.list p v (ground (arith, e, fresh)))

    pub takes_one :
        (s : Store K.Links) (q : Handle) (p : Ptr) (v : ℤ) (xs : Cells)
        → q.head ≡ h
        → IsCounted s q ((p, v) ∷ xs)
        → Returns (λ out s'. (out.0 ≡ some v) × (out.1.head ≡ h) × IsCounted s' out.1 xs) (take q s)
    takes_one s q p v xs e c =
        Returns-mono (Taken K q p v xs) _ (take q s)
          (λ out s' (got, same, list, freed). (
            got,
            ap Handle.head same ∙ e,
            record {
              list = subst (λ a. IsList K s' a xs) (sym (ap Handle.head same)) list;
              count = ground (arith, same, c.count);
            },
          ))
          (d.takes s q p v xs c.list (omega (arith, c.count)))

    serve-replies :
        (ops : List Op) (s : Store K.Links) (q : Handle) (xs : Cells)
        → q.head ≡ h
        → IsCounted s q xs
        → Allocates at h ops xs
        → length xs + length ops < 2 ^ 31
        → Returns (λ rs _. rs ≡ replies place ops (values xs)) (serve add take ops q s)
    unfolding serve replies Allocates
    serve-replies [] s q xs e c al small = refl
    serve-replies (put p v ∷ ops) s q xs e c al small =
        Returns-bind (λ q' s'. (q'.head ≡ h) × IsCounted s' q' (at (p, v) xs)) _
          (add (some p) q v s) _
          (adds_one s q xs p v e c (near-has p (h ∷ addrs xs) al.0) (omega (arith, small)))
          λ q' s' added. rw (← d.values_at p v xs) (
            serve-replies ops s' q' (at (p, v) xs) added.0 added.1 al.1
              (omega (arith, small, d.length_at p v xs)))
    serve-replies (get ∷ ops) s q [] e c al small = rw (d.takes_nothing s q c.list) (
        Returns-bind (λ rs _. rs ≡ replies place ops []) _ (serve add take ops q s) _
          (serve-replies ops s q [] e c al (omega (arith, small)))
          λ rs s' same. ap (λ r. none ∷ r) same)
    serve-replies (get ∷ ops) s q ((p, v) ∷ xs) e c al small =
        Returns-bind (λ out s'. (out.0 ≡ some v) × (out.1.head ≡ h) × IsCounted s' out.1 xs) _
          (take q s) _ (takes_one s q p v xs e c)
          λ out s' taken.
            Returns-bind (λ rs _. rs ≡ replies place ops (values xs)) _
              (serve add take ops out.1 s') _
              (serve-replies ops s' out.1 xs taken.1 taken.2 al (omega (arith, small)))
              λ rs s'' rest. ground (arith, taken.0, rest)

  length-behind : (c : Ptr × ℤ) (xs : Cells) → length (behind c xs) ≡ suc (length xs)
  length-behind c xs = omega (arith, length-append xs (c ∷ []))

  pub queue_Serves : Serves (enqueue K) (dequeue K) at_end behind
  queue_Serves = record {
    values_at = λ p v xs. values-append xs ((p, v) ∷ []);
    length_at = λ p v xs. length-behind (p, v) xs;
    adds = enqueue_lem K;
    takes = dequeue_lem K;
    takes_nothing = dequeue-nil K;
  }

  pub list_Serves : Serves (link_list_push K) (link_list_pop K) at_end behind
  list_Serves = record {
    values_at = λ p v xs. values-append xs ((p, v) ∷ []);
    length_at = λ p v xs. length-behind (p, v) xs;
    adds = link_list_push_lem K;
    takes = link_list_pop_lem K;
    takes_nothing = link_list_pop-nil K;
  }

  pub stack_Serves : Serves (stack_push K) (stack_pop K) in_front before
  stack_Serves = record {
    values_at = λ p v xs. refl;
    length_at = λ p v xs. refl;
    adds = stack_push_lem K;
    takes = stack_pop_lem K;
    takes_nothing = stack_pop-nil K;
  }

  module _ (ops : List Op) (s : Store K.Links) (q : Handle) (xs : Cells)
      (counted : IsCounted s q xs) where
    -- As long as `kmalloc` gives memory of which 24 bytes are unused, a queue answers every sequence
    -- of `enqueue` and `dequeue` that is shorter than 2^31, together with what it holds, as a first-in first-out list of its values would; no call crashes.
    pub queue-replies :
        Allocates behind q.head ops xs
        → length xs + length ops < 2 ^ 31
        → Returns
            (λ rs _. rs ≡ replies at_end ops (values xs))
            (serve (enqueue K) (dequeue K) ops q s)
    queue-replies al small =
        serve-replies (enqueue K) (dequeue K) at_end behind queue_Serves q.head ops s q xs refl
          counted al small

    -- As long as `kmalloc` gives memory of which 24 bytes are unused, a list answers every sequence of
    -- `link_list_push` and `link_list_pop` that is shorter than 2^31, together with what it holds, as a first-in first-out list of its values would; no call crashes.
    pub link_list-replies :
        Allocates behind q.head ops xs
        → length xs + length ops < 2 ^ 31
        → Returns
            (λ rs _. rs ≡ replies at_end ops (values xs))
            (serve (link_list_push K) (link_list_pop K) ops q s)
    link_list-replies al small =
        serve-replies (link_list_push K) (link_list_pop K) at_end behind list_Serves q.head ops s q
          xs refl counted al small

    -- As long as `kmalloc` gives memory of which 24 bytes are unused, a stack answers every sequence
    -- of `stack_push` and `stack_pop` that is shorter than 2^31, together with what it holds, as a last-in first-out list of its values would; no call crashes.
    pub stack-replies :
        Allocates before q.head ops xs
        → length xs + length ops < 2 ^ 31
        → Returns
            (λ rs _. rs ≡ replies in_front ops (values xs))
            (serve (stack_push K) (stack_pop K) ops q s)
    stack-replies al small =
        serve-replies (stack_push K) (stack_pop K) in_front before stack_Serves q.head ops s q xs
          refl counted al small
