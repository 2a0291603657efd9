-- ===== src/WorkFifo/Progress.antt =====
-- Items that wait reach the worker.
use learn_k.Base.{ℕ, suc, ◌≤◌, ◌≡◌, ap, sym, ◌∙◌, subst, some, List, [], ◌∷◌, ◌++◌, arith, length}
use native.Mathlib.Decide.{dec_lt}
use mathlib.Core.List.{append_assoc, append-nil}
use learn_k.Base.Int.{ℤ}
use learn_k.Kernel.{done, ◌>>◌, and_then, Returns, Returns-bind, Returns-mono}
use learn_k.Container.Cells.{Cells, values}
use learn_k.WorkFifo.{State, enqueue, work}
use learn_k.WorkFifo.Queueing.{IsFifo, Accepted, enqueue_lem, enqueue-full, Processed, work-cons}
use learn_k.WorkFifo.Order.{Event, put, process, event, events, Unused}

-- the turns of the worker
abbrev pub turns : List Event → ℕ
turns [] = 0
turns (put p v ∷ es) = turns es
turns (process ∷ es) = suc (turns es)

-- Everything of `l` is printed, in its order, and perhaps more after it.
abbrev pub Printed : List ℤ → State → Type 0
Printed l s = (more : List ℤ) × (s.printed ≡ l ++ more)

Printed-front :
    (v : ℤ) (vs : List ℤ) (s t s' : State)
    → t.printed ≡ s.printed ++ (v ∷ [])
    → Printed (t.printed ++ vs) s'
    → Printed (s.printed ++ (v ∷ vs)) s'
Printed-front v vs s t s' e (more, h) = (
  more,
  h ∙ ap (λ l. (l ++ vs) ++ more) e ∙ ap (λ l. l ++ more) (append_assoc s.printed (v ∷ []) vs),
)

Printed-less :
    (v : ℤ) (s s' : State) → Printed (s.printed ++ (v ∷ [])) s' → Printed (s.printed ++ []) s'
Printed-less v s s' (more, h) = (
  v ∷ more,
  h ∙ append_assoc s.printed (v ∷ []) more ∙ ap (λ l. l ++ (v ∷ more)) (sym (append-nil s.printed)),
)

-- Whatever else is put in meanwhile, as soon as the worker has had as many turns as items stood in
-- front, these have all been printed, in their order.
pub events-Printed :
    (es : List Event) (s : State) (ys zs : Cells) (n : ℕ)
    → IsFifo s (ys ++ zs) n
    → Unused es (ys ++ zs) n
    → length ys ≤ turns es
    → Returns (λ _ s'. Printed (s.printed ++ values ys) s') (events es s)
unfolding events event Unused
events-Printed [] s [] zs n is u t = ([], sym (append-nil (s.printed ++ []) ∙ append-nil s.printed))
events-Printed [] s (y ∷ ys) zs n is u t = absurd (omega arith)
events-Printed (put p v ∷ es) s ys zs n is u t = elim (dec_lt n 9) [
  | yes room ↦
      Returns-bind (λ _ t. IsFifo t ((ys ++ zs) ++ ((p, v) ∷ [])) (suc n) × (t.printed ≡ s.printed))
        _ ((enqueue (some p) v >> λ s'. done tt s') s) _
        (Returns-bind (Accepted s (ys ++ zs) n is p v) _ (enqueue (some p) v s) _
          (enqueue_lem s (ys ++ zs) n is p v u.0 room) λ r t a. (a.fifo, a.same))
        λ _ t' h.
          let e = append_assoc ys zs ((p, v) ∷ []) in
          subst (λ l. Returns (λ _ s'. Printed (l ++ values ys) s') (events es t')) h.1
            (events-Printed es t' ys (zs ++ ((p, v) ∷ [])) (suc n)
              (subst (λ l. IsFifo t' l (suc n)) e h.0)
              (subst (λ l. Unused es l (suc n)) e (u.1 room)) t)
  | no full ↦
      rw (enqueue-full s (ys ++ zs) n is p v (omega (arith, is.few)))
        (events-Printed es s ys zs n is (u.2 (omega arith)) t)
]
events-Printed (process ∷ es) s [] [] n is u t =
    subst
      (λ l. Returns (λ _ s'. Printed (s.printed ++ []) s') (and_then (work l s) (λ _. events es)))
      (sym is.waiting) (events-Printed es s [] [] n is u (omega arith))
events-Printed (process ∷ es) s [] ((p, v) ∷ zs) n is u t =
    Returns-bind (λ _ t. Processed s v zs n t) _ (work s.pending s) _
      (subst (λ l. Returns (λ _ t. Processed s v zs n t) (work l s)) (sym is.waiting)
        (work-cons s p v zs n is))
      λ _ t' h.
        Returns-mono _ _ (events es t')
          (λ _ s' m. Printed-less v s s' (Printed-front v [] s t' s' h.prints m))
          (events-Printed es t' [] zs n h.fifo u (omega arith))
events-Printed (process ∷ es) s ((p, v) ∷ ys) zs n is u t =
    Returns-bind (λ _ t. Processed s v (ys ++ zs) n t) _ (work s.pending s) _
      (subst (λ l. Returns (λ _ t. Processed s v (ys ++ zs) n t) (work l s)) (sym is.waiting)
        (work-cons s p v (ys ++ zs) n is))
      λ _ t' h.
        Returns-mono _ _ (events es t') (λ _ s' m. Printed-front v (values ys) s t' s' h.prints m)
          (events-Printed es t' ys zs n h.fifo u (omega arith))
