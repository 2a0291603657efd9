-- ===== src/WorkFifo/Queueing.antt =====
-- What `enqueue` and the worker do, and what the exit of the module does.
use learn_k.Base.{
  Option, length, length-append, if◌then◌else◌, subst, ℕ, suc, ◌+◌, ◌%◌, ◌≤◌, ◌<◌, ◌≡◌, refl, ap,
  sym, ◌∙◌, false, none, some, List, [], ◌∷◌, ◌++◌, arith, ◌==◌,
}
use mathlib.Core.List.{append_assoc, append-nil}
use learn_k.Base.Int.{ℤ, pos, negsuc}
use learn_k.Kernel.{Run, done, oops, blocked, ◌>>◌, and_then, Returns, Returns-bind, Returns-mono}
use learn_k.Container.Links.{Ptr, has, Distinct, has-append}
use learn_k.Container.Cells.{Cells, addrs, values, Holds, addrs-append, Holds-append, Holds-put}
use learn_k.WorkFifo.{
  State, fifo_size, free_item, work_handler, enqueue, work, flush, free_all, workfifo_exit,
}

abbrev pub InSlots : (ℕ → Option Ptr) → ℕ → List Ptr → Type 0
InSlots fifo i [] = Unit
InSlots fifo i (p ∷ ps) = (fifo i ≡ some p) × InSlots fifo (i + 1) ps

-- `n` items were accepted, and `xs` are those that are not processed. Nothing else is allocated.
-- The first `n` slots still have the items processed, and then those of `xs`.
pub record IsFifo (s : State) (xs : Cells) (n : ℕ) : Type 0 where
  pub heads : s.fifo_head ≡ 0
  pub tails : s.fifo_tail ≡ n
  pub few : n ≤ 9
  pub waiting : s.pending ≡ addrs xs
  pub held : Holds s.items xs
  pub rest : (p : Ptr) → has p (addrs xs) ≡ false → s.items p ≡ none
  pub apart : Distinct (addrs xs)
  pub processed : List Ptr
  pub slots : InSlots s.fifo 0 (processed ++ addrs xs)
  pub number : length (processed ++ addrs xs) ≡ n

Distinct-append :
    (xs : List Ptr) (p : Ptr) → has p xs ≡ false → Distinct xs → Distinct (xs ++ (p ∷ []))
Distinct-append [] p h d = (refl, tt)
Distinct-append (x ∷ xs) p h d =
    (ground (arith, has-append x xs (p ∷ []), d.0), Distinct-append xs p (ground arith) d.1)

InSlots-append :
    (fifo : ℕ → Option Ptr) (t : ℕ) (p : Ptr) (i : ℕ) (ps : List Ptr)
    → t ≡ i + length ps
    → InSlots fifo i ps
    → InSlots (λ j. if j == t then some p else fifo j) i (ps ++ (p ∷ []))
InSlots-append fifo t p i [] e h = (ground (arith, e), tt)
InSlots-append fifo t p i (q ∷ ps) e h =
    (ground (arith, e, h.0), InSlots-append fifo t p (i + 1) ps (omega (arith, e)) h.1)

module _ (s : State) (xs : Cells) (n : ℕ) (is : IsFifo s xs n) where
  -- what a successful `enqueue` leaves
  pub record Accepted (p : Ptr) (v : ℤ) (r : ℤ) (s' : State) : Type 0 where
    pub result : r ≡ pos 0
    pub fifo : IsFifo s' (xs ++ ((p, v) ∷ [])) (suc n)
    pub same : s'.printed ≡ s.printed

  pub enqueue_lem :
      (p : Ptr) (v : ℤ)
      → has p (addrs xs) ≡ false
      → n < 9
      → Returns (Accepted p v) (enqueue (some p) v s)
  unfolding enqueue
  enqueue_lem p v fresh room =
      let space : ((s.fifo_tail + 1) % 10 == s.fifo_head) ≡ false =
        ground (arith, is.tails, is.heads) in
      let longer : (is.processed ++ addrs xs) ++ (p ∷ [])
          ≡ is.processed ++ addrs (xs ++ ((p, v) ∷ [])) =
        append_assoc is.processed (addrs xs) (p ∷ [])
        ∙ ap (λ l. is.processed ++ l) (sym (addrs-append xs ((p, v) ∷ []))) in
      rw space (record {
        result = refl;
        same = refl;
        fifo = record {
          heads = is.heads;
          tails = ground (arith, is.tails);
          few = room;
          waiting = ap (λ l. l ++ (p ∷ [])) is.waiting ∙ sym (addrs-append xs ((p, v) ∷ []));
          held =
              Holds-append _ xs ((p, v) ∷ []) (Holds-put s.items p (some v) xs fresh is.held)
                (ground arith, tt);
          rest = λ q h.
              ground
                (arith, is.rest q, addrs-append xs ((p, v) ∷ []), has-append q (addrs xs) (p ∷ []));
          apart = rw (addrs-append xs ((p, v) ∷ [])) (Distinct-append (addrs xs) p fresh is.apart);
          processed = is.processed;
          slots = subst (InSlots _ 0) longer (
              InSlots-append s.fifo s.fifo_tail p 0 (is.processed ++ addrs xs)
                (omega (arith, is.tails, is.number)) is.slots);
          number =
              ap length (sym longer)
              ∙ length-append (is.processed ++ addrs xs) (p ∷ [])
              ∙ omega (arith, is.number);
        };
      })

  -- Nine items are all that the ring ever takes: the head does not move when items are processed.
  pub enqueue-full : (p : Ptr) (v : ℤ) → n ≡ 9 → enqueue (some p) v s ≡ done (negsuc 0) s
  unfolding enqueue
  enqueue-full p v full = ground (arith, is.tails, is.heads)

-- The worker prints the first item and frees it.
pub record Processed (s : State) (v : ℤ) (xs : Cells) (n : ℕ) (s' : State) : Type 0 where
  pub fifo : IsFifo s' xs n
  pub prints : s'.printed ≡ s.printed ++ (v ∷ [])
  pub same_slots : s'.fifo ≡ s.fifo

pub work-cons :
    (s : State) (p : Ptr) (v : ℤ) (xs : Cells) (n : ℕ)
    → IsFifo s ((p, v) ∷ xs) n
    → Returns (λ _ s'. Processed s v xs n s') (work (p ∷ addrs xs) s)
unfolding work work_handler
work-cons s p v xs n is = rw (is.held.0) (record {
  prints = refl;
  same_slots = refl;
  fifo = record {
    heads = is.heads;
    tails = is.tails;
    few = is.few;
    waiting = refl;
    held = Holds-put s.items p none xs is.apart.0 is.held.1;
    rest = λ q h. ground (arith, is.rest q);
    apart = is.apart.1;
    processed = is.processed ++ (p ∷ []);
    slots = subst (InSlots s.fifo 0) (sym (append_assoc is.processed (p ∷ []) (addrs xs))) is.slots;
    number = ap length (append_assoc is.processed (p ∷ []) (addrs xs)) ∙ is.number;
  };
})

abbrev Flushed : State → Cells → ℕ → State → Type 0
Flushed s xs n s' = IsFifo s' [] n × (s'.printed ≡ s.printed ++ values xs) × (s'.fifo ≡ s.fifo)

-- `flush_workqueue` processes all that is pending.
flush_lem :
    (xs : Cells) (s : State) (n : ℕ)
    → IsFifo s xs n
    → Returns (λ _ s'. Flushed s xs n s') (flush (addrs xs) s)
unfolding flush
flush_lem [] s n is = (is, sym (append-nil s.printed), refl)
flush_lem ((p, v) ∷ xs) s n is =
    Returns-bind (λ _ s'. Processed s v xs n s') _ (work (p ∷ addrs xs) s) _
      (work-cons s p v xs n is)
      λ _ t w.
        Returns-mono _ _ (flush (addrs xs) t)
          (λ _ s' f. (
            f.0,
            f.1 ∙ ap (λ l. l ++ values xs) w.prints ∙ append_assoc s.printed (v ∷ []) (values xs),
            f.2 ∙ w.same_slots,
          ))
          (flush_lem xs t n w.fifo)

-- Of what was accepted something stands in the first slot.
first_slot :
    (fifo : ℕ → Option Ptr) (ps : List Ptr)
    → InSlots fifo 0 ps
    → 0 < length ps
    → (p : Ptr) × (fifo 0 ≡ some p)
first_slot fifo [] h l = absurd (omega arith)
first_slot fifo (p ∷ ps) h l = (p, h.0)

free_all-oops :
    (s : State) (n : ℕ) (p : Ptr)
    → IsFifo s [] n
    → 0 < n
    → s.fifo 0 ≡ some p
    → free_all (suc fifo_size) s ≡ oops
unfolding free_all free_item
free_all-oops s n p is some_in e =
    let unequal : (s.fifo_head == s.fifo_tail) ≡ false = ground (arith, is.heads, is.tails) in
    rw (unequal, is.heads, e, is.rest p refl) refl

oops-bind :
    {S A B : Type 0} (P : A → S → Type 0) (m : S → Run S A) (k : S → Run S B) (s : S)
    → Returns P (m s)
    → ((a : A) (t : S) → P a t → k t ≡ oops)
    → (m >> k) s ≡ oops
oops-bind P m k s h f = go (m s) h
  where
    go : (r : Run _ _) → Returns P r → and_then r (λ _. k) ≡ oops
    go (done a t) h = f a t h
    go blocked h = absurd h
    go oops h = absurd h

-- If any item was ever accepted, the exit of the module crashes, since it frees one a second time:
-- the first slot still has the address of an item, which the worker has freed when the queue has
-- been flushed.
pub workfifo_exit-oops :
    (s : State) (xs : Cells) (n : ℕ)
    → IsFifo s xs n
    → 0 < n
    → (p : Ptr) × (s.fifo s.fifo_head ≡ some p)
      × Returns (λ _ t. (t.items p ≡ none) × (t.fifo_head ≡ s.fifo_head)) (flush s.pending s)
      × (workfifo_exit s ≡ oops)
unfolding workfifo_exit
workfifo_exit-oops s xs n is some_in =
    let (p, e) = first_slot s.fifo (is.processed ++ addrs xs) is.slots (omega (arith, is.number)) in
    let flushed = flush_lem xs s n is in
    (
      p,
      ap s.fifo is.heads ∙ e,
      subst (λ l. Returns (λ _ t. (t.items p ≡ none) × (t.fifo_head ≡ s.fifo_head)) (flush l s))
          (sym is.waiting)
          (Returns-mono _ _ (flush (addrs xs) s)
            (λ _ t h. (h.0.rest p refl, h.0.heads ∙ sym is.heads)) flushed),
      ap (λ l. and_then (flush l s) (λ _. free_all (suc fifo_size))) is.waiting
          ∙ oops-bind (λ _ s'. Flushed s xs n s') (flush (addrs xs)) (free_all (suc fifo_size)) s
              flushed λ _ t h. free_all-oops t n p h.0 some_in (ap (λ f. f 0) h.2 ∙ e),
    )
