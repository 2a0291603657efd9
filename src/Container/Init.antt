-- ===== src/Container/Init.antt =====
-- `list_init` of src/list/main.c: each container is filled, printed and emptied.
use learn_k.Base.{ℕ, Bool, Option, none, some, List, [], ◌∷◌, ◌++◌}
use learn_k.Base.Int.{ℤ, pos}
use learn_k.Memory.{Bytes}
use learn_k.Kernel.{Ret, val, ◌>>=◌, ◌>>◌}
use learn_k.Container.Links.{Ptr, ListApi}
use learn_k.Container.Core.{
  Handle, Cmd, pure, add_container, len, link_list_push, link_list_insert, link_list_remove,
  link_list_pop, del_link_list, enqueue, dequeue, stack_push, stack_pop,
}
use learn_k.Container.Text.{to_string}
use learn_k.Printf.{path_max, read_text}

-- What `kmalloc` answers in one part: the addresses of the container and of the nodes, and the
-- buffer of `to_string`, if there is room, with what it holds.
pub record Answers : Type 0 where
  pub head : Ptr
  pub node_1 : Ptr
  pub node_2 : Ptr
  pub node_3 : Ptr
  pub node_4 : Ptr
  pub room : Bool
  pub garbage : Bytes

-- the lines of the log: a printed container, or a value that was taken out and the new length
pub data Line : Type 0 where
  shows : Option (List ℕ) → Line
  node : ℤ → ℕ → Line

abbrev pub text_of : Option Bytes → Option (List ℕ)
text_of none = none
text_of (some m) = some (read_text path_max m 0)

-- what a variable holds once a value may have been written to it
abbrev pub written : Option ℤ → ℤ → ℤ
written none old = old
written (some new) old = new

module _ (K : ListApi) where
  -- `kfree` of the buffer leaves the list alone.
  unfoldable pub show : ℕ → Answers → Handle → Cmd K Line
  show fuel a l = do
    buffer ← to_string K fuel a.room a.garbage l.head
    pure K (shows (text_of buffer))

  module _ (add : Option Ptr → Handle → ℤ → Cmd K Handle)
      (take : Handle → Cmd K (Option ℤ × Handle)) where
    unfoldable pub fill : Answers → Handle → Cmd K Handle
    fill a q₀ = do
      q₁ ← add (some a.node_1) q₀ (pos 1)
      q₂ ← add (some a.node_2) q₁ (pos 2)
      add (some a.node_3) q₂ (pos 3)

    unfoldable pub drain : Handle → Cmd K (List Line × Handle)
    drain q₀ = do
      (i, q₁) ← take q₀
      (j, q₂) ← take q₁
      (k, q₃) ← take q₂
      pure K (
        node (written i (pos 0)) (len K q₁)
            ∷ node (written j (written i (pos 0))) (len K q₂)
            ∷ node (written k (written j (written i (pos 0)))) (len K q₃)
            ∷ [],
        q₃,
      )

    -- what each part ends with
    unfoldable pub finish : ℕ → Answers → Handle → Cmd K (List Line)
    unfolding drain show
    finish fuel a q = do
      line ← show fuel a q
      (lines, q') ← drain q
      del_link_list K fuel q'
      pure K (line ∷ lines)

  -- after the heading "LinkList"
  unfoldable pub list_part : ℕ → Answers → Cmd K (List Line)
  unfolding fill finish
  list_part fuel a = do
    l ← add_container K (some a.head)
    l' ← fill (link_list_push K) (link_list_pop K) a l
    link_list_insert K fuel (some a.node_4) l' (pos 1) (pos 4)
    link_list_remove K fuel l' (pos 2)
    finish (link_list_push K) (link_list_pop K) fuel a l'

  -- after the headings "Queue" and "Stack"
  unfoldable pub plain_part :
      (add : Option Ptr → Handle → ℤ → Cmd K Handle)
      → (take : Handle → Cmd K (Option ℤ × Handle)) → ℕ
      → Answers
      → Cmd K (List Line)
  unfolding fill finish
  plain_part add take fuel a = do
    q ← add_container K (some a.head)
    q' ← fill add take a q
    finish add take fuel a q'

  unfoldable pub list_init : ℕ → (list queue stack : Answers) → Cmd K (List Line × Ret)
  unfolding list_part plain_part
  list_init fuel list queue stack = do
    first ← list_part fuel list
    second ← plain_part (enqueue K) (dequeue K) fuel queue
    third ← plain_part (stack_push K) (stack_pop K) fuel stack
    pure K (first ++ (second ++ third), val 0)
