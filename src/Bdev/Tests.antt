-- ===== src/Bdev/Tests.antt =====
-- A write of two segments and the read back into other pages.
use learn_k.Base.{Option, none, some}
use learn_k.Bdev.Setup.{Answers}
use learn_k.Base.{ℕ, ◌+◌, ◌≡◌, ◌≤◌, refl, true, false, List, [], ◌∷◌, arith}
use learn_k.Memory.{Bytes, memcpy}
use learn_k.Strings.{strlen_from}
use learn_k.Kernel.{done, Returns}
use learn_k.Bdev.{
  blk_sts_ok, req_op_read, req_op_write, Segment, Request, State, transfer, each_segment,
  ramblock_process_request, logs,
}
use learn_k.Bdev.Segments.{gather, Logged}
use learn_k.Bdev.Answers.{
  LogsAll, IsRequest, ramblock_process_request_round_trip, ramblock_process_request-Spared,
}

abbrev filled : State
filled = record { disk = λ _. 0; pages = λ p i. p + i }

abbrev cut : List Segment
cut =
    record { bv_page = 1; bv_offset = 0; bv_len = 300 }
    ∷ record { bv_page = 2; bv_offset = 100; bv_len = 212 }
    ∷ []

abbrev whole : List Segment
whole = record { bv_page = 7; bv_offset = 0; bv_len = 512 } ∷ []

abbrev out : Request
out = record {
  start_sector = 3;
  nr_sectors = 1;
  passthrough = false;
  op = req_op_write;
  segments = cut;
}

abbrev back : Request
back = record {
  start_sector = 3;
  nr_sectors = 1;
  passthrough = false;
  op = req_op_read;
  segments = whole;
}

out-IsRequest : IsRequest 3 1 req_op_write out
out-IsRequest = record { starts = refl; counts = refl; asks = refl; plain = refl; whole = refl }

back-IsRequest : IsRequest 3 1 req_op_read back
back-IsRequest = record { starts = refl; counts = refl; asks = refl; plain = refl; whole = refl }

-- the state after the write
abbrev written : State
written = record filled {
  disk = memcpy (memcpy (λ _. 0) 1536 (filled.pages 1) 0 300) 1836 (filled.pages 2) 100 212;
}

-- There is memory, and it is clear.
abbrev zeroed : ℕ → Option Bytes
zeroed n = some (λ _. 0)

out-Logged : LogsAll zeroed out filled
unfolding Logged logs transfer memcpy strlen_from
out-Logged = (refl, (refl, tt))

back-Logged : LogsAll zeroed back written
unfolding Logged logs transfer memcpy strlen_from
back-Logged = (refl, tt)

wrote : ramblock_process_request zeroed out filled ≡ done blk_sts_ok written
unfolding ramblock_process_request each_segment transfer logs memcpy strlen_from
wrote = refl

ramblock_process_request_round_trip_example :
    Returns
      (λ st s₂. (st ≡ blk_sts_ok) × (gather s₂.pages whole ≡ gather filled.pages cut))
      (ramblock_process_request zeroed back written)
ramblock_process_request_round_trip_example =
    ramblock_process_request_round_trip zeroed 3 1 out back filled written blk_sts_ok out-IsRequest
      back-IsRequest (omega arith) (tt, tt) out-Logged back-Logged wrote

-- one sector too far
abbrev beyond : Request
beyond = record out { start_sector = 32768 }

ramblock_process_request-Spared_example :
    Returns
      (λ _ s'. (i : ℕ) → 16777216 ≤ i → s'.disk i ≡ 0)
      (ramblock_process_request zeroed out filled)
ramblock_process_request-Spared_example =
    ramblock_process_request-Spared zeroed out filled (omega arith) (omega arith, (omega arith, tt))
      out-Logged

-- there is no queue for the disk
abbrev no_queue : Answers
no_queue = record {
  vmalloc = true;
  alloc_tag_set = true;
  alloc_disk = none;
  init_queue = some 11;
  add_disk = true;
}
