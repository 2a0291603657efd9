-- ===== src/Bio/Ramblock.antt =====
-- The RAM disk of src/bdev/main.c as a device for src/bio/main.c.
use learn_k.Base.{ℕ, ◌+◌, ◌*◌, ◌%◌, ◌^◌, ◌<◌, ◌≡◌, Bool, true, false, some, [], ◌∷◌, arith}
use learn_k.Memory.{Bytes, memcpy}
use learn_k.Kernel.{Run, done, blocked, oops}
use learn_k.Bdev.{
  State, Request, Status, blk_sts_ok, blk_sts_ioerr, Op, req_op_read, req_op_write, each_segment,
  transfer, ramblock_process_request,
}
use learn_k.Bio.{BlockApi, sector_size}

-- One request for the sector `n`, with one segment at the start of a page.
abbrev request : Op → ℕ → Request
request op n = record {
  start_sector = n;
  nr_sectors = 1;
  passthrough = false;
  op = op;
  segments = record { bv_page = 0; bv_offset = 0; bv_len = sector_size } ∷ [];
}

abbrev worked : Run State Status → Bool
worked (done blk_sts_ok s) = true
worked (done blk_sts_ioerr s) = false
worked blocked = false
worked oops = false

abbrev after : State → Run State Status → State
after s (done r t) = t
after s blocked = s
after s oops = s

abbrev with_page : Bytes → Bytes → State
with_page disk page = record { disk = disk; pages = λ _. page }

unfoldable pub run : Op → ℕ → Bytes → Bytes → Run State Status
unfolding ramblock_process_request
run op n disk page =
    ramblock_process_request (λ _. some (λ _. 0)) (request op n) (with_page disk page)

abbrev byte_of : ℕ → ℕ
byte_of n = (n * sector_size) % 2 ^ 32

pub write-sector :
    (n : ℕ) (page disk : Bytes) (i : ℕ)
    → worked (run req_op_write n disk page) ≡ true
    → i < sector_size
    → (after (with_page disk page) (run req_op_write n disk page)).disk (byte_of n + i) ≡ page i
unfolding run each_segment transfer memcpy
write-sector n page disk i e h = ground (arith, e, h)

pub read-sector :
    (n : ℕ) (page disk : Bytes) (i : ℕ)
    → worked (run req_op_read n disk page) ≡ true
    → i < sector_size
    → (after (with_page disk page) (run req_op_read n disk page)).pages 0 i ≡ disk (byte_of n + i)
unfolding run each_segment transfer memcpy
read-sector n page disk i e h = ground (arith, e, h)

abbrev pub ramblock : BlockApi
ramblock = record {
  Disk = Bytes;
  sector = λ d n i. d (byte_of n + i);
  submit_write = λ n page d. (
    worked (run req_op_write n d page),
    (after (with_page d page) (run req_op_write n d page)).disk,
  );
  submit_read = λ n d page. (
    worked (run req_op_read n d page),
    (after (with_page d page) (run req_op_read n d page)).pages 0,
  );
  write_lem = λ n page d e i h. write-sector n page d i e h;
  read_lem = λ n d page e i h. read-sector n page d i e h;
}
