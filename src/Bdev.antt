-- ===== src/Bdev.antt =====
-- src/bdev/main.c: a RAM disk of 16 MB behind the kernel's block layer.
pub mod Segments
pub mod Answers
pub mod Setup
mod Tests
use learn_k.Base.{
  ℕ, ◌+◌, ◌*◌, ◌/◌, ◌%◌, Option, none, some, ◌^◌, Bool, true, false, not, ◌&&◌, ◌||◌, List, [], ◌∷◌,
  ltb, ◌==◌, if◌then◌else◌,
}
use learn_k.Memory.{Bytes, memcpy}
use learn_k.Strings.{strlen_from}
use learn_k.Kernel.{Run, done, oops}

-- `RAMBLOCK_SIZE` and `__SECTOR_SIZE`
abbrev pub ramblock_size : ℕ
ramblock_size = 16 * 1024 * 1024

abbrev pub sector_size : ℕ
sector_size = 512

-- `set_capacity(ramblock_disk, RAMBLOCK_SIZE / __SECTOR_SIZE)`
abbrev pub capacity : ℕ
capacity = 32768

pub data Status : Type 0 where
  blk_sts_ok blk_sts_ioerr : Status

-- `req_op(req)`
pub data Op : Type 0 where
  req_op_read req_op_write req_op_other : Op

-- a `struct bio_vec`
pub record Segment : Type 0 where
  pub bv_page : ℕ
  pub bv_offset : ℕ
  pub bv_len : ℕ

pub record Request : Type 0 where
  pub start_sector : ℕ
  pub nr_sectors : ℕ
  pub passthrough : Bool
  pub op : Op
  pub segments : List Segment

-- What `ramblock_data` points at, and the pages, each at its `kmap` address.
pub record State : Type 0 where
  pub disk : Bytes
  pub pages : ℕ → Bytes

abbrev pub set_page : (ℕ → Bytes) → ℕ → Bytes → ℕ → Bytes
set_page pages p m q = if q == p then m else pages q

-- the copy between a segment and the disk
unfoldable pub transfer : Op → ℕ → Segment → State → State
transfer req_op_read offset seg s = record s {
  pages =
      set_page s.pages seg.bv_page
        (memcpy (s.pages seg.bv_page) seg.bv_offset s.disk offset seg.bv_len);
}
transfer req_op_write offset seg s = record s {
  disk = memcpy s.disk offset (s.pages seg.bv_page) seg.bv_offset seg.bv_len;
}
transfer req_op_other offset seg s = s

abbrev pub copies : Op → Bool
copies req_op_read = true
copies req_op_write = true
copies req_op_other = false

-- the bytes that can be read of a block of `vmalloc`: it has whole pages, and the next is a guard
abbrev pub readable : ℕ → ℕ
readable n = (n + 4095) / 4096 * 4096

abbrev pub is_some : Option ℕ → Bool
is_some none = false
is_some (some n) = true

-- Whether `len` bytes can be copied into a new block, which holds `garbage` before, and printed with
-- `%s`, which reads on to a 0. No block is taken for no bytes, and a null pointer can be printed.
unfoldable pub logs : Option Bytes → Bytes → (offset len : ℕ) → Bool
unfolding strlen_from
logs none buffer offset len = len == 0
logs (some garbage) buffer offset len =
    is_some (strlen_from (readable len) (memcpy garbage 0 buffer offset len) 0)

-- What `vmalloc` returns for a size, and what is in that memory; the result is not tested before the
-- copy for the log.
module _ (vmalloc : ℕ → Option Bytes) where
  -- `rq_for_each_segment`; `offset` is an `unsigned int`
  unfoldable pub each_segment : Op → ℕ → List Segment → State → Run State Status
  unfolding transfer
  each_segment op offset [] s = done blk_sts_ok s
  each_segment op offset (seg ∷ segs) s =
      let next = (offset + seg.bv_len) % 2 ^ 32 in
      let copied = transfer op offset seg s in
      let rest = each_segment op next segs copied in
      let logged = logs (vmalloc seg.bv_len) (copied.pages seg.bv_page) seg.bv_offset seg.bv_len in
      if ltb ramblock_size next
      then done blk_sts_ioerr s
      else if copies op && not logged
      then oops
      else rest

  unfoldable pub ramblock_process_request : Request → State → Run State Status
  unfolding each_segment
  ramblock_process_request req s =
      let offset = (req.start_sector * sector_size) % 2 ^ 32 in
      if ltb capacity ((req.start_sector + req.nr_sectors) % 2 ^ 64) || req.passthrough
      then done blk_sts_ioerr s
      else each_segment req.op offset req.segments s
