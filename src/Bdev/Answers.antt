-- ===== src/Bdev/Answers.antt =====
-- What `ramblock_process_request` answers.
use learn_k.Base.{
  ℕ, ◌+◌, ◌*◌, ◌%◌, ◌^◌, ◌≤◌, ◌<◌, ◌≡◌, refl, ap, sym, ◌∙◌, true, false, Option, subst, ◌||◌, ◌⊎◌,
  inl, inr, Bool-cases, List, [], ◌∷◌, arith, ltb,
}
use learn_k.Memory.{Bytes, slice, memcpy}
use learn_k.Kernel.{done, Returns, Returns-mono, Returns-done}
use learn_k.Bdev.{
  ramblock_size, sector_size, capacity, Status, blk_sts_ok, blk_sts_ioerr, Op, req_op_read,
  req_op_write, req_op_other, Segment, Request, State, transfer, copies, each_segment,
  ramblock_process_request,
}
use learn_k.Bdev.Segments.{
  gather, total, Logged, Apart, Written, Fetched, each_segment_write, each_segment_read,
}

-- A request of the block layer: its segments have the size that it states.
pub record IsRequest (start nr : ℕ) (op : Op) (req : Request) : Type 0 where
  pub starts : req.start_sector ≡ start
  pub counts : req.nr_sectors ≡ nr
  pub asks : req.op ≡ op
  pub plain : req.passthrough ≡ false
  pub whole : total req.segments ≡ nr * sector_size

-- sizes that the page of a segment allows
abbrev pub Small : List Segment → Type 0
Small [] = Unit
Small (g ∷ gs) = (g.bv_len ≤ 4096) × Small gs

-- Beyond the capacity, or passed through, a request is answered with an error and does nothing.
pub ramblock_process_request_refused :
    (vmalloc : ℕ → Option Bytes) (req : Request) (s : State)
    → req.start_sector + req.nr_sectors < 2 ^ 64
    → (capacity < req.start_sector + req.nr_sectors) ⊎ (req.passthrough ≡ true)
    → ramblock_process_request vmalloc req s ≡ done blk_sts_ioerr s
unfolding ramblock_process_request
ramblock_process_request_refused vmalloc req s small bad = ground arith

-- The segments of a request can be logged.
abbrev pub LogsAll : (vmalloc : ℕ → Option Bytes) → Request → State → Type 0
LogsAll vmalloc req s =
    Logged vmalloc req.op ((req.start_sector * sector_size) % 2 ^ 32) req.segments s

module _ (vmalloc : ℕ → Option Bytes) where
  accepted :
      (start nr : ℕ) (op : Op) (req : Request) (s : State)
      → IsRequest start nr op req
      → start + nr ≤ capacity
      → ramblock_process_request vmalloc req s
        ≡ each_segment vmalloc op (start * sector_size) req.segments s
  unfolding ramblock_process_request
  accepted start nr op req s is h =
      rw (is.starts, is.counts, is.plain, is.asks, sum, scaled) (ground arith)
    where
      sum : (start + nr) % 2 ^ 64 ≡ start + nr
      sum = omega arith

      scaled : (start * sector_size) % 2 ^ 32 ≡ start * sector_size
      scaled = omega arith

  logged :
      (start nr : ℕ) (op : Op) (req : Request) (s : State)
      → IsRequest start nr op req
      → start + nr ≤ capacity
      → LogsAll vmalloc req s
      → Logged vmalloc op (start * sector_size) req.segments s
  logged start nr op req s is h l =
      let scaled : (req.start_sector * sector_size) % 2 ^ 32 ≡ start * sector_size =
        omega (arith, is.starts) in
      subst (λ o. Logged vmalloc o (start * sector_size) req.segments s) is.asks
        (subst (λ f. Logged vmalloc req.op f req.segments s) scaled l)

  -- If its segments can be logged, a write within the capacity succeeds: the sectors hold the bytes of the segments in their order,
  -- and no other byte of the disk and no page changes.
  pub ramblock_process_request_write :
      (start nr : ℕ) (req : Request) (s : State)
      → IsRequest start nr req_op_write req
      → start + nr ≤ capacity
      → LogsAll vmalloc req s
      → Returns
          (λ st s'. (st ≡ blk_sts_ok) × Written (start * sector_size) req.segments s s')
          (ramblock_process_request vmalloc req s)
  ramblock_process_request_write start nr req s is h l =
      rw (accepted start nr req_op_write req s is h) (
        each_segment_write vmalloc (start * sector_size) req.segments s (omega (arith, is.whole))
          (logged start nr req_op_write req s is h l))

  -- If its segments can be logged, a read within the capacity, into segments of different pages, succeeds: the segments get the
  -- bytes of the sectors, and the disk and the other pages do not change.
  pub ramblock_process_request_read :
      (start nr : ℕ) (req : Request) (s : State)
      → IsRequest start nr req_op_read req
      → start + nr ≤ capacity
      → LogsAll vmalloc req s
      → Apart req.segments
      → Returns
          (λ st s'. (st ≡ blk_sts_ok) × Fetched (start * sector_size) req.segments s s')
          (ramblock_process_request vmalloc req s)
  ramblock_process_request_read start nr req s is h l apart =
      rw (accepted start nr req_op_read req s is h) (
        each_segment_read vmalloc (start * sector_size) req.segments s (omega (arith, is.whole))
          (logged start nr req_op_read req s is h l) apart)

  -- If the segments of both can be logged, which takes memory and a 0 byte where the text of each
  -- ends, a read of the same sectors after a write succeeds and gives back the bytes written, however
  -- the two requests cut them into segments, if those of the read are in different pages.
  pub ramblock_process_request_round_trip :
      (start nr : ℕ) (out back : Request) (s s₁ : State) (st : Status)
      → IsRequest start nr req_op_write out
      → IsRequest start nr req_op_read back
      → start + nr ≤ capacity
      → Apart back.segments
      → LogsAll vmalloc out s
      → LogsAll vmalloc back s₁
      → ramblock_process_request vmalloc out s ≡ done st s₁
      → Returns
          (λ st₂ s₂.
            (st₂ ≡ blk_sts_ok) × (gather s₂.pages back.segments ≡ gather s.pages out.segments))
          (ramblock_process_request vmalloc back s₁)
  ramblock_process_request_round_trip start nr out back s s₁ st is_out is_back h apart l₁ l₂ e =
      Returns-mono _ _ (ramblock_process_request vmalloc back s₁)
        (λ _ s₂ f. (
          f.0,
          f.1.got
              ∙ ap (slice s₁.disk (start * sector_size)) (is_back.whole ∙ sym is_out.whole)
              ∙ wrote.1.put,
        ))
        (ramblock_process_request_read start nr back s₁ is_back h l₂ apart)
    where
      wrote : (st ≡ blk_sts_ok) × Written (start * sector_size) out.segments s s₁
      wrote =
          Returns-done (λ t s'. (t ≡ blk_sts_ok) × Written (start * sector_size) out.segments s s')
            e (ramblock_process_request_write start nr out s is_out h l₁)

  -- What any request leaves alone.
  abbrev pub Spared : State → State → Type 0
  Spared s s' = (i : ℕ) → ramblock_size ≤ i → s'.disk i ≡ s.disk i

  transfer-Spared :
      (op : Op) (offset : ℕ) (g : Segment) (s : State)
      → offset + g.bv_len ≤ ramblock_size
      → Spared s (transfer op offset g s)
  unfolding transfer memcpy
  transfer-Spared req_op_read offset g s h i a = refl
  transfer-Spared req_op_write offset g s h i a = ground arith
  transfer-Spared req_op_other offset g s h i a = refl

  each_segment-Spared :
      (op : Op) (offset : ℕ) (segs : List Segment) (s : State)
      → offset ≤ ramblock_size
      → Small segs
      → Logged vmalloc op offset segs s
      → Returns (λ _ s'. Spared s s') (each_segment vmalloc op offset segs s)
  unfolding each_segment Logged
  each_segment-Spared op offset [] s h small l = λ i a. refl
  each_segment-Spared op offset (g ∷ gs) s h small l =
      rw (l.0) (elim (Bool-cases (ltb ramblock_size ((offset + g.bv_len) % 2 ^ 32))) [
        | inl beyond ↦ rw beyond (λ i a. refl)
        | inr inside ↦
            let next =
              Returns-mono _ _
                (each_segment vmalloc op ((offset + g.bv_len) % 2 ^ 32) gs (transfer op offset g s))
                (λ _ s' k i a. k i a ∙ transfer-Spared op offset g s (ground (arith, small.0)) i a)
                (each_segment-Spared op ((offset + g.bv_len) % 2 ^ 32) gs (transfer op offset g s)
                  (ground arith) small.1 l.1) in
            rw inside (elim (Bool-cases (copies op)) [ inl c ↦ rw c next | inr c ↦ rw c next ])
      ])

  -- Whatever is asked, with whatever segments, as long as these can be logged, which takes memory and
  -- a 0 byte where the text of each ends, the sector sum does not overflow and no segment is larger
  -- than a page, the request is answered and no byte behind the disk changes.
  pub ramblock_process_request-Spared :
      (req : Request) (s : State)
      → req.start_sector + req.nr_sectors < 2 ^ 64
      → Small req.segments
      → LogsAll vmalloc req s
      → Returns (λ _ s'. Spared s s') (ramblock_process_request vmalloc req s)
  unfolding ramblock_process_request
  ramblock_process_request-Spared req s sum small l =
      elim (Bool-cases
        (ltb capacity ((req.start_sector + req.nr_sectors) % 2 ^ 64) || req.passthrough)) [
          | inl bad ↦ rw bad (λ i a. refl)
          | inr good ↦ rw good (
              each_segment-Spared req.op ((req.start_sector * sector_size) % 2 ^ 32) req.segments s
                (ground arith) small l)
        ]
