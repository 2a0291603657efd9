-- ===== src/Container/Tests.antt =====
-- Concrete runs of the containers, with `next` and `prev` as functions.
use learn_k.Base.{◌+◌, ◌++◌, true, ◌≡◌, refl, none, some, List, [], ◌∷◌, arith, ◌==◌, if◌then◌else◌}
use learn_k.Base.Int.{pos}
use learn_k.Kernel.{Returns, val}
use learn_k.Container.Links.{Ptr}
use learn_k.Memory.{Bytes}
use learn_k.Container.Text.{to_string}
use learn_k.Container.Init.{Answers, shows, node, list_init}
use learn_k.Container.Log.{logged, list_init-logged}
use learn_k.Container.ReadBack.{read_list, to_string-read_list}
use learn_k.Printf.{path_max, read_text}
use learn_k.Printf.Decimal.{decimal, digits}
use learn_k.Container.Circular.{Pointers, circular}
use learn_k.Container.Core.{Store, Handle, add_container, enqueue, dequeue, stack_push, stack_pop}
use learn_k.Container.Cells.{Cells, IsList}
use learn_k.Container.Service.{
  Op, put, get, replies, serve, Allocates, IsCounted, queue-replies, stack-replies,
}
use learn_k.Container.Delete.{add_container_lem}

-- a list at 1 with the nodes 30 and 60
abbrev two : Store Pointers
two = record {
  links = record {
    nxt = λ p. if p == 1 then 30 else if p == 30 then 60 else 1;
    prv = λ p. if p == 1 then 60 else if p == 30 then 1 else 30;
  };
  value = λ p. if p == 30 then some (pos 5) else if p == 60 then some (pos 6) else none;
}

abbrev two_cells : Cells
two_cells = (30, pos 5) ∷ (60, pos 6) ∷ []

abbrev handle : Handle
handle = record { head = 1; count = 2 }

two-IsList : IsList circular two 1 two_cells
two-IsList = record {
  ring = ((refl, refl, (refl, refl, (refl, refl))), (refl, (refl, (refl, tt))));
  held = (refl, (refl, tt));
}

two-IsCounted : IsCounted circular two handle two_cells
two-IsCounted = record { list = two-IsList; count = refl }

-- the address of a freed node is used again
abbrev ops : List Op
ops = get ∷ put 30 (pos 7) ∷ get ∷ get ∷ get ∷ []

queue-replies_example :
    Returns
      (λ rs _. rs ≡ some (pos 5) ∷ some (pos 6) ∷ some (pos 7) ∷ none ∷ [])
      (serve circular (enqueue circular) (dequeue circular) ops handle two)
unfolding replies Allocates
queue-replies_example =
    queue-replies circular ops two handle two_cells two-IsCounted (refl, tt) (omega arith)

stack-replies_example :
    Returns
      (λ rs _. rs ≡ some (pos 5) ∷ some (pos 7) ∷ some (pos 6) ∷ none ∷ [])
      (serve circular (stack_push circular) (stack_pop circular) ops handle two)
unfolding replies Allocates
stack-replies_example =
    stack-replies circular ops two handle two_cells two-IsCounted (refl, tt) (omega arith)

add_container_lem_example :
    Returns
      (λ q s'. IsCounted circular s' q [] × (s'.value ≡ two.value))
      (add_container circular (some 9) two)
add_container_lem_example = add_container_lem circular 9 two

-- a buffer that is not clear at first
abbrev garbage : Bytes
garbage i = 42

to_string-read_list_example :
    Returns
      (λ text s'.
        (m : Bytes) × (text ≡ some m)
        × (read_text path_max m 0 ≡ 91 ∷ 53 ∷ 44 ∷ 54 ∷ 93 ∷ [])
        × (read_list (read_text path_max m 0) ≡ some (pos 5 ∷ pos 6 ∷ []))
        × (s' ≡ two))
      (to_string circular 3 true garbage 1 two)
unfolding decimal digits
to_string-read_list_example =
    to_string-read_list circular 3 two 1 two_cells garbage two-IsList (omega arith) (omega arith)

-- The addresses from `h` on.
abbrev run_of : Ptr → Answers
run_of h = record {
  head = h;
  node_1 = h + 24;
  node_2 = h + 48;
  node_3 = h + 72;
  node_4 = h + 96;
  room = true;
  garbage = garbage;
}

list_init-logged_example :
    Returns
      (λ out _. out ≡ (
        shows (some (91 ∷ 49 ∷ 44 ∷ 50 ∷ 44 ∷ 51 ∷ 93 ∷ []))
            ∷ node (pos 1) 2
            ∷ node (pos 2) 1
            ∷ node (pos 3) 0
            ∷ (logged true (pos 1) (pos 2) (pos 3) ++ logged true (pos 3) (pos 2) (pos 1)),
        val 0,
      ))
      (list_init circular 4 (run_of 10) (run_of 20) (run_of 20) two)
unfolding decimal digits
list_init-logged_example =
    list_init-logged circular 4 (run_of 10) (run_of 20) (run_of 20) two (refl, refl, refl) refl
      (refl, refl, refl) (refl, refl, refl) (omega arith)
