-- ===== src/Container/Core.antt =====
-- The functions of src/list/container.c.
use learn_k.Base.{
  ℕ, zero, suc, ◌+◌, ◌-◌, ◌%◌, ◌^◌, Bool, true, false, not, ◌||◌, Option, none, some, ◌==◌,
  if◌then◌else◌,
}
use learn_k.Base.Int.{ℤ, pos, negsuc, ltb_ℤ, s32}
use learn_k.Kernel.{Run, done, blocked, oops, ◌>>=◌, ◌>>◌}
use learn_k.Container.Links.{Ptr, ListApi}

-- The links of all nodes and heads, and the `value` of each allocated `struct listNode`.
pub record Store (Links : Type 0) : Type 0 where
  pub links : Links
  pub value : Ptr → Option ℤ

-- `struct LinkList`, `struct Queue` and `struct Stack`, which are alike: the address of the
-- embedded `head`, and `count`, as the bits of an `int`.
pub record Handle : Type 0 where
  pub head : Ptr
  pub count : ℕ

abbrev pub put_value : (Ptr → Option ℤ) → Ptr → Option ℤ → Ptr → Option ℤ
put_value f p v q = if q == p then v else f q

-- `!index`
abbrev pub is_zero : ℤ → Bool
is_zero (pos zero) = true
is_zero z = false

-- `index -= 1`
abbrev pub dec : ℤ → ℤ
dec (pos zero) = negsuc 0
dec (pos (suc n)) = pos n
dec (negsuc n) = negsuc (suc n)

module _ (K : ListApi) where
  abbrev pub Cmd : Type 0 → Type 0
  Cmd A = Store K.Links → Run (Store K.Links) A

  abbrev pub pure : {A : Type 0} → A → Cmd A
  pure a s = done a s

  -- an operation of <linux/list.h>
  abbrev pub relink : (K.Links → K.Links) → Cmd (Unit {0})
  relink f s = done tt (record s { links = f s.links })

  -- `list_entry(pos, struct listNode, head)->value`
  unfoldable pub value_at : Ptr → Cmd ℤ
  value_at p s = elim (s.value p) [ none ↦ oops | some v ↦ done v s ]

  unfoldable pub kfree : Ptr → Cmd (Unit {0})
  kfree p s = elim (s.value p) [
    | none ↦ oops
    | some v ↦ done tt (record s { value = put_value s.value p none })
  ]

  -- `node->value = value`, at what `kmalloc` returned
  abbrev set_value : Ptr → ℤ → Cmd (Unit {0})
  set_value p v s = done tt (record s { value = put_value s.value p (some v) })

  -- `fresh` is what `kmalloc` returns; the result is not tested. Only 8 bytes are asked for where a
  -- node takes 24, so this is the code where no other node or container is in the 24 bytes (`near`).
  unfoldable pub add_node : Option Ptr → ℤ → Cmd Ptr
  add_node none value = λ s. oops
  add_node (some p) value = do relink (K.init_list_head p); set_value p value; pure p

  -- `add_link_list`, `add_queue` and `add_stack`, at the address that `kmalloc` returned, of
  -- which the same holds
  unfoldable pub add_container : Option Ptr → Cmd Handle
  add_container none = λ s. oops
  add_container (some p) = do relink (K.init_list_head p); pure (record { head = p; count = 0 })

  -- `!l->count || list_empty(&l->head)`
  abbrev pub nothing_in : Handle → Store K.Links → Bool
  nothing_in l s = (l.count == 0) || K.list_empty s.links l.head

  -- `pos->next`
  abbrev pub next_of : Ptr → Cmd Ptr
  next_of p s = done (K.next s.links p) s

  -- The loop of `link_list_get`; the last argument is what `*ret` holds if it was written.
  unfoldable pub get_loop : ℕ → (head p : Ptr) → ℤ → Option ℤ → Cmd (Option ℤ)
  unfolding value_at
  get_loop zero head p index ret = λ s. blocked
  get_loop (suc fuel) head p index ret = if p == head then pure ret else do
    v ← value_at p
    q ← next_of p
    if is_zero index then pure (some v) else get_loop fuel head q (dec index) (some v)

  -- `index >= l->count`
  abbrev pub beyond : Handle → ℤ → Bool
  beyond l index = not (ltb_ℤ index (s32 l.count))

  unfoldable pub link_list_get : ℕ → Handle → ℤ → Cmd (Option ℤ)
  unfolding get_loop
  link_list_get fuel l index s =
      if nothing_in l s
      then done none s
      else if beyond l index
      then done none s
      else (do p ← next_of l.head; get_loop fuel l.head p index none) s

  -- `list_for_each_safe (pos, idx, &l->head)` in `link_list_insert`
  unfoldable pub insert_loop : ℕ → (head p idx : Ptr) → ℤ → Option Ptr → ℤ → Cmd (Unit {0})
  unfolding add_node
  insert_loop zero head p idx index fresh value = λ s. blocked
  insert_loop (suc fuel) head p idx index fresh value =
      if p == head
      then pure tt
      else if is_zero index
      then (do node ← add_node fresh value; relink (K.list_add node idx))
      else (do q ← next_of idx; insert_loop fuel head idx q (dec index) fresh value)

  unfoldable pub link_list_insert : ℕ → Option Ptr → Handle → ℤ → ℤ → Cmd (Unit {0})
  unfolding insert_loop
  link_list_insert fuel fresh l index value s =
      if nothing_in l s
      then done tt s
      else if beyond l index
      then done tt s
      else (do p ← next_of l.head; idx ← next_of p; insert_loop fuel l.head p idx index fresh value)
          s

  -- the same loop in `link_list_remove`
  unfoldable pub remove_loop : ℕ → (head p idx : Ptr) → ℤ → Cmd (Unit {0})
  remove_loop zero head p idx index = λ s. blocked
  remove_loop (suc fuel) head p idx index =
      if p == head
      then pure tt
      else if is_zero index
      then relink (K.list_del idx)
      else (do q ← next_of idx; remove_loop fuel head idx q (dec index))

  unfoldable pub link_list_remove : ℕ → Handle → ℤ → Cmd (Unit {0})
  unfolding remove_loop
  link_list_remove fuel l index s =
      if nothing_in l s
      then done tt s
      else if beyond l index
      then done tt s
      else (do p ← next_of l.head; idx ← next_of p; remove_loop fuel l.head p idx index) s

  unfoldable pub link_list_push : Option Ptr → Handle → ℤ → Cmd Handle
  unfolding add_node
  link_list_push fresh l value = do
    node ← add_node fresh value
    relink (K.list_add_tail node l.head)
    pure (record l { count = (l.count + 1) % 2 ^ 32 })

  -- Its result is what is written to `*ret`, if anything.
  unfoldable pub link_list_pop : Handle → Cmd (Option ℤ × Handle)
  unfolding value_at kfree
  link_list_pop l s =
      if nothing_in l s
      then done (none, l) s
      else (do
        ptr ← next_of l.head
        relink (K.list_del ptr)
        v ← value_at ptr
        kfree ptr
        pure (some v, record l { count = l.count - 1 }))
          s

  -- `link_list_len`, `queue_len` and `stack_len`
  unfoldable pub len : Handle → ℕ
  len l = l.count

  -- the loop of `del_link_list`, `del_queue` and `del_stack`: each node leaves the list
  unfoldable pub del_loop : ℕ → (head p idx : Ptr) → Cmd (Unit {0})
  del_loop zero head p idx = λ s. blocked
  del_loop (suc fuel) head p idx =
      if p == head
      then pure tt
      else (do relink (K.list_del p); q ← next_of idx; del_loop fuel head idx q)

  -- `kfree(l)` ends the life of the handle, which the caller gives up.
  unfoldable pub del_link_list : ℕ → Handle → Cmd (Unit {0})
  unfolding del_loop
  del_link_list fuel l = do p ← next_of l.head; idx ← next_of p; del_loop fuel l.head p idx

  unfoldable pub enqueue : Option Ptr → Handle → ℤ → Cmd Handle
  unfolding add_node
  enqueue fresh q value = do
    node ← add_node fresh value
    relink (K.list_add_tail node q.head)
    pure (record q { count = (q.count + 1) % 2 ^ 32 })

  unfoldable pub dequeue : Handle → Cmd (Option ℤ × Handle)
  unfolding value_at kfree
  dequeue q s =
      if nothing_in q s
      then done (none, q) s
      else (do
        ptr ← next_of q.head
        relink (K.list_del ptr)
        v ← value_at ptr
        kfree ptr
        pure (some v, record q { count = q.count - 1 }))
          s

  unfoldable pub stack_push : Option Ptr → Handle → ℤ → Cmd Handle
  unfolding add_node
  stack_push fresh t value = do
    node ← add_node fresh value
    relink (K.list_add node t.head)
    pure (record t { count = (t.count + 1) % 2 ^ 32 })

  unfoldable pub stack_pop : Handle → Cmd (Option ℤ × Handle)
  unfolding value_at kfree
  stack_pop t s =
      if nothing_in t s
      then done (none, t) s
      else (do
        ptr ← next_of t.head
        relink (K.list_del ptr)
        v ← value_at ptr
        kfree ptr
        pure (some v, record t { count = t.count - 1 }))
          s

  -- The other two containers are made, counted and deleted by the same steps.
  abbrev pub add_queue : Option Ptr → Cmd Handle
  add_queue = add_container

  abbrev pub add_stack : Option Ptr → Cmd Handle
  add_stack = add_container

  abbrev pub queue_len : Handle → ℕ
  queue_len = len

  abbrev pub stack_len : Handle → ℕ
  stack_len = len

  abbrev pub del_queue : ℕ → Handle → Cmd (Unit {0})
  del_queue = del_link_list

  abbrev pub del_stack : ℕ → Handle → Cmd (Unit {0})
  del_stack = del_link_list
