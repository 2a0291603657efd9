-- ===== src/Bdev/Segments.antt =====
-- The loop of `ramblock_process_request` over the segments.
use learn_k.Base.{
  ℕ, ◌+◌, ◌%◌, ◌^◌, ◌≤◌, ◌<◌, ◌≡◌, ◌≢◌, refl, ap, sym, ◌∙◌, true, false, Option, subst, ◌⊎◌, inl,
  inr, Bool-cases, List, [], ◌∷◌, ◌++◌, arith, ltb,
}
use learn_k.Memory.{Bytes, slice, memcpy}
use learn_k.Memory.Laws.{slice_ext, slice-append}
use learn_k.Kernel.{Returns, Returns-mono}
use learn_k.Bdev.{
  ramblock_size, blk_sts_ok, Op, req_op_read, req_op_write, Segment, State, set_page, transfer,
  copies, logs, each_segment,
}

-- the bytes of the segments, one after the other
abbrev pub gather : (ℕ → Bytes) → List Segment → List ℕ
gather pages [] = []
gather pages (g ∷ gs) = slice (pages g.bv_page) g.bv_offset g.bv_len ++ gather pages gs

abbrev pub total : List Segment → ℕ
total [] = 0
total (g ∷ gs) = g.bv_len + total gs

abbrev pub Avoids : ℕ → List Segment → Type 0
Avoids p [] = Unit
Avoids p (g ∷ gs) = (p ≢ g.bv_page) × Avoids p gs

-- no two segments in one page
abbrev pub Apart : List Segment → Type 0
Apart [] = Unit
Apart (g ∷ gs) = Avoids g.bv_page gs × Apart gs

-- The bytes that are copied, and those that are not.
memcpy-slice :
    (to from : Bytes) (dst src n : ℕ) → slice (memcpy to dst from src n) dst n ≡ slice from src n
unfolding memcpy
memcpy-slice to from dst src n = slice_ext _ _ dst src n (λ i h. ground arith)

memcpy_outside :
    (to from : Bytes) (dst src n i : ℕ)
    → (i < dst) ⊎ (dst + n ≤ i)
    → memcpy to dst from src n i ≡ to i
unfolding memcpy
memcpy_outside to from dst src n i h = ground arith

-- What a write of the segments at `offset` leaves.
pub record Written (offset : ℕ) (segs : List Segment) (s s' : State) : Type 0 where
  pub put : slice s'.disk offset (total segs) ≡ gather s.pages segs
  pub same_pages : s'.pages ≡ s.pages
  pub kept : (i : ℕ) → (i < offset) ⊎ (offset + total segs ≤ i) → s'.disk i ≡ s.disk i

-- What a read leaves.
pub record Fetched (offset : ℕ) (segs : List Segment) (s s' : State) : Type 0 where
  pub got : gather s'.pages segs ≡ slice s.disk offset (total segs)
  pub same_disk : s'.disk ≡ s.disk
  pub kept : (p : ℕ) → Avoids p segs → s'.pages p ≡ s.pages p

Written-cons :
    (offset : ℕ) (g : Segment) (gs : List Segment) (s s' : State)
    → Written (offset + g.bv_len) gs (transfer req_op_write offset g s) s'
    → Written offset (g ∷ gs) s s'
unfolding transfer
Written-cons offset g gs s s' w = record {
  put =
      slice-append s'.disk offset g.bv_len (total gs)
      ∙ ap (λ bs. bs ++ slice s'.disk (offset + g.bv_len) (total gs))
          (slice_ext s'.disk _ offset offset g.bv_len
              (λ i h. w.kept (offset + i) (inl (omega arith)))
            ∙ memcpy-slice s.disk (s.pages g.bv_page) offset g.bv_offset g.bv_len)
      ∙ ap (λ bs. slice (s.pages g.bv_page) g.bv_offset g.bv_len ++ bs) w.put;
  same_pages = w.same_pages;
  kept = λ i h.
      w.kept i (ground arith)
      ∙ memcpy_outside s.disk (s.pages g.bv_page) offset g.bv_offset g.bv_len i (ground arith);
}

Fetched-cons :
    (offset : ℕ) (g : Segment) (gs : List Segment) (s s' : State)
    → Avoids g.bv_page gs
    → Fetched (offset + g.bv_len) gs (transfer req_op_read offset g s) s'
    → Fetched offset (g ∷ gs) s s'
unfolding transfer
Fetched-cons offset g gs s s' apart w = record {
  got =
      ap (λ bs. bs ++ gather s'.pages gs)
        (ap (λ m. slice m g.bv_offset g.bv_len) (w.kept g.bv_page apart ∙ here)
          ∙ memcpy-slice (s.pages g.bv_page) s.disk g.bv_offset offset g.bv_len)
      ∙ ap (λ bs. slice s.disk offset g.bv_len ++ bs) w.got
      ∙ sym (slice-append s.disk offset g.bv_len (total gs));
  same_disk = w.same_disk;
  kept = λ p a. w.kept p a.1 ∙ elsewhere p a.0;
}
  where
    copied : Bytes
    copied = memcpy (s.pages g.bv_page) g.bv_offset s.disk offset g.bv_len

    here : set_page s.pages g.bv_page copied g.bv_page ≡ copied
    here = ground arith

    elsewhere : (p : ℕ) → p ≢ g.bv_page → set_page s.pages g.bv_page copied p ≡ s.pages p
    elsewhere p a = ground arith

module _ (vmalloc : ℕ → Option Bytes) where
  -- Each segment can be logged: there is memory, and a 0 ends the text that is printed.
  unfoldable pub Logged : Op → ℕ → List Segment → State → Type 0
  Logged op offset [] s = Unit
  Logged op offset (g ∷ gs) s =
      let copied = transfer op offset g s in
      (logs (vmalloc g.bv_len) (copied.pages g.bv_page) g.bv_offset g.bv_len ≡ true)
      × Logged op ((offset + g.bv_len) % 2 ^ 32) gs copied

  -- A segment that ends within the disk is copied.
  each_segment-cons :
      (op : Op) (offset : ℕ) (g : Segment) (gs : List Segment) (s : State)
      → offset + g.bv_len ≤ ramblock_size
      → Logged op offset (g ∷ gs) s
      → (each_segment vmalloc op offset (g ∷ gs) s
          ≡ each_segment vmalloc op (offset + g.bv_len) gs (transfer op offset g s))
        × Logged op (offset + g.bv_len) gs (transfer op offset g s)
  unfolding each_segment Logged
  each_segment-cons op offset g gs s h l = (
    rw (l.0, fits, inside)
        (elim (Bool-cases (copies op)) [ inl c ↦ rw c refl | inr c ↦ rw c refl ]),
    subst (λ o. Logged op o gs (transfer op offset g s)) fits l.1,
  )
    where
      fits : (offset + g.bv_len) % 2 ^ 32 ≡ offset + g.bv_len
      fits = omega arith

      inside : ltb ramblock_size (offset + g.bv_len) ≡ false
      inside = ground arith

  pub each_segment_write :
      (offset : ℕ) (segs : List Segment) (s : State)
      → offset + total segs ≤ ramblock_size
      → Logged req_op_write offset segs s
      → Returns
          (λ st s'. (st ≡ blk_sts_ok) × Written offset segs s s')
          (each_segment vmalloc req_op_write offset segs s)
  unfolding each_segment slice
  each_segment_write offset [] s h l =
      (refl, record { put = refl; same_pages = refl; kept = λ i a. refl })
  each_segment_write offset (g ∷ gs) s h l =
      let (step, l') = each_segment-cons req_op_write offset g gs s (omega arith) l in
      rw step (
        Returns-mono _ _ (each_segment vmalloc req_op_write (offset + g.bv_len) gs _)
          (λ st s' w. (w.0, Written-cons offset g gs s s' w.1))
          (each_segment_write (offset + g.bv_len) gs _ (omega arith) l'))

  pub each_segment_read :
      (offset : ℕ) (segs : List Segment) (s : State)
      → offset + total segs ≤ ramblock_size
      → Logged req_op_read offset segs s
      → Apart segs
      → Returns
          (λ st s'. (st ≡ blk_sts_ok) × Fetched offset segs s s')
          (each_segment vmalloc req_op_read offset segs s)
  unfolding each_segment slice
  each_segment_read offset [] s h l a =
      (refl, record { got = refl; same_disk = refl; kept = λ i a. refl })
  each_segment_read offset (g ∷ gs) s h l a =
      let (step, l') = each_segment-cons req_op_read offset g gs s (omega arith) l in
      rw step (
        Returns-mono _ _ (each_segment vmalloc req_op_read (offset + g.bv_len) gs _)
          (λ st s' w. (w.0, Fetched-cons offset g gs s s' a.0 w.1))
          (each_segment_read (offset + g.bv_len) gs _ (omega arith) l' a.1))
