-- ===== src/WorkFifo/Order.antt =====
-- In what order items reach the worker.
use learn_k.Base.{
  ℕ, zero, suc, ◌-◌, ◌≤◌, ◌<◌, ◌≡◌, refl, ap, sym, ◌∙◌, subst, false, some, List, [], ◌∷◌, ◌++◌,
  arith, take,
}
use native.Mathlib.Decide.{dec_lt}
use mathlib.Core.List.{append_assoc, append-nil}
use learn_k.Base.Int.{ℤ}
use learn_k.Kernel.{Run, done, ◌>>◌, and_then, Returns, Returns-bind, Returns-mono}
use learn_k.Container.Links.{Ptr, has}
use learn_k.Container.Cells.{Cells, addrs, values, values-append}
use learn_k.WorkFifo.{State, enqueue, work}
use learn_k.WorkFifo.Queueing.{IsFifo, Accepted, enqueue_lem, enqueue-full, Processed, work-cons}

pub data Event : Type 0 where
  put : Ptr → ℤ → Event
  process : Event

unfoldable pub event : Event → State → Run State (Unit {0})
unfolding enqueue work
event (put p v) s = (enqueue (some p) v >> λ s'. done tt s') s
event process s = work s.pending s

unfoldable pub events : List Event → State → Run State (Unit {0})
unfolding event
events [] s = done tt s
events (e ∷ es) s = (event e >> events es) s

-- what is offered to `enqueue`, in order
abbrev pub offered : List Event → List ℤ
offered [] = []
offered (put p v ∷ es) = v ∷ offered es
offered (process ∷ es) = offered es

-- `kmalloc` returns memory that is not in use.
unfoldable pub Unused : List Event → Cells → ℕ → Type 0
Unused [] xs n = Unit
Unused (put p v ∷ es) xs n =
    (has p (addrs xs) ≡ false)
    × (n < 9 → Unused es (xs ++ ((p, v) ∷ [])) (suc n))
    × (9 ≤ n → Unused es xs n)
Unused (process ∷ es) [] n = Unused es [] n
Unused (process ∷ es) (x ∷ xs) n = Unused es xs n

take-nil : (n : ℕ) → take {A = ℤ} n [] ≡ []
take-nil zero = refl
take-nil (suc n) = refl

-- What was printed and what waits are, in order, what there was before and the first `room` of what
-- was offered.
pub record Went (before : List ℤ) (room : ℕ) (es : List Event) (s' : State) : Type 0 where
  pub left : Cells
  pub number : ℕ
  pub fifo : IsFifo s' left number
  pub order : s'.printed ++ values left ≡ before ++ take room (offered es)

Went-put :
    (before : List ℤ) (n : ℕ) (p : Ptr) (v : ℤ) (es : List Event) (s' : State)
    → n < 9
    → Went (before ++ (v ∷ [])) (9 - suc n) es s'
    → Went before (9 - n) (put p v ∷ es) s'
Went-put before n p v es s' room w =
    let less : 9 - n ≡ suc (9 - suc n) = omega arith in
    record {
      left = w.left;
      number = w.number;
      fifo = w.fifo;
      order =
          w.order
          ∙ append_assoc before (v ∷ []) (take (9 - suc n) (offered es))
          ∙ ap (λ k. before ++ take k (v ∷ offered es)) (sym less);
    }

Went-same :
    (before before' : List ℤ) (room : ℕ) (es : List Event) (e : Event) (s' : State)
    → before' ≡ before
    → take room (offered es) ≡ take room (offered (e ∷ es))
    → Went before' room es s'
    → Went before room (e ∷ es) s'
Went-same before before' room es e s' b t w = record {
  left = w.left;
  number = w.number;
  fifo = w.fifo;
  order = w.order ∙ ap (λ l. l ++ take room (offered es)) b ∙ ap (λ l. before ++ l) t;
}

-- In any order of `enqueue` and of turns of the worker no call crashes; the worker prints the items
-- in the order in which they were accepted, and nine are accepted in all, as long as `kmalloc`
-- returns unused memory.
pub events_lem :
    (es : List Event) (s : State) (xs : Cells) (n : ℕ)
    → IsFifo s xs n
    → Unused es xs n
    → Returns (λ _ s'. Went (s.printed ++ values xs) (9 - n) es s') (events es s)
unfolding events event Unused
events_lem [] s xs n is u = record {
  left = xs;
  number = n;
  fifo = is;
  order = sym (
      ap (λ l. (s.printed ++ values xs) ++ l) (take-nil (9 - n))
      ∙ append-nil (s.printed ++ values xs));
}
events_lem (put p v ∷ es) s xs n is u = elim (dec_lt n 9) [
  | yes room ↦
      Returns-bind (λ _ t. IsFifo t (xs ++ ((p, v) ∷ [])) (suc n) × (t.printed ≡ s.printed)) _
        ((enqueue (some p) v >> λ s'. done tt s') s) _
        (Returns-bind (Accepted s xs n is p v) _ (enqueue (some p) v s) _
          (enqueue_lem s xs n is p v u.0 room) λ r t a. (a.fifo, a.same))
        λ _ t h.
          Returns-mono _ _ (events es t)
            (λ _ s' w. Went-put (s.printed ++ values xs) n p v es s' room (
              subst (λ l. Went l (9 - suc n) es s')
                (ap (λ l. l ++ values (xs ++ ((p, v) ∷ []))) h.1
                  ∙ ap (λ l. s.printed ++ l) (values-append xs ((p, v) ∷ []))
                  ∙ sym (append_assoc s.printed (values xs) (v ∷ [])))
                w))
            (events_lem es t (xs ++ ((p, v) ∷ [])) (suc n) h.0 (u.1 room))
  | no full ↦ rw (enqueue-full s xs n is p v (omega (arith, is.few))) (
      Returns-mono _ _ (events es s)
        (λ _ s' w.
          Went-same (s.printed ++ values xs) (s.printed ++ values xs) (9 - n) es (put p v) s' refl
            (let zero_left : 9 - n ≡ 0 = omega arith in rw zero_left refl) w)
        (events_lem es s xs n is (u.2 (omega arith))))
]
events_lem (process ∷ es) s [] n is u =
    subst
      (λ l.
        Returns (λ _ s'. Went (s.printed ++ []) (9 - n) (process ∷ es) s')
          (and_then (work l s) (λ _. events es)))
      (sym is.waiting)
      (Returns-mono _ _ (events es s)
        (λ _ s' w. Went-same (s.printed ++ []) (s.printed ++ []) (9 - n) es process s' refl refl w)
        (events_lem es s [] n is u))
events_lem (process ∷ es) s ((p, v) ∷ xs) n is u =
    Returns-bind (λ _ t. Processed s v xs n t) _ (work s.pending s) _
      (subst (λ l. Returns (λ _ t. Processed s v xs n t) (work l s)) (sym is.waiting)
        (work-cons s p v xs n is))
      λ _ t h.
        Returns-mono _ _ (events es t)
          (λ _ s' w.
            Went-same (s.printed ++ (v ∷ values xs)) (t.printed ++ values xs) (9 - n) es process s'
              (ap (λ l. l ++ values xs) h.prints ∙ append_assoc s.printed (v ∷ []) (values xs)) refl
              w)
          (events_lem es t xs n h.fifo u)
