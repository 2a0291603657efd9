-- ===== src/Bio.antt =====
-- src/bio/main.c: a block is written to a device and read back.
pub mod Cleanup
pub mod Ramblock
mod Tests
use learn_k.Base.{
  ℕ, ◌+◌, ◌-◌, ◌<◌, ◌≡◌, Bool, true, false, Option, none, some, List, [], ◌∷◌, ◌++◌, length,
}
use learn_k.Memory.{Bytes, store, store_all}
use learn_k.Kernel.{Errno, enomem, Ret, val, err}
use learn_k.Printf.{read_text}

abbrev pub sector_size : ℕ
sector_size = 512

pub data Op : Type 0 where
  req_op_read req_op_write : Op

-- The block layer and the device behind it: `submit_bio_wait` says whether the transfer of one
-- sector has worked, and then the sector holds what was written, or the buffer what the sector holds.
pub record BlockApi : Type 1 where
  pub Disk : Type 0
  pub sector : Disk → ℕ → Bytes
  pub submit_write : ℕ → Bytes → Disk → Bool × Disk
  pub submit_read : ℕ → Disk → Bytes → Bool × Bytes
  pub write_lem :
      (n : ℕ) (data' : Bytes) (d : Disk)
      → (submit_write n data' d).0 ≡ true
      → (i : ℕ) → i < sector_size
      → sector (submit_write n data' d).1 n i ≡ data' i
  pub read_lem :
      (n : ℕ) (d : Disk) (buffer : Bytes)
      → (submit_read n d buffer).0 ≡ true
      → (i : ℕ) → i < sector_size
      → (submit_read n d buffer).1 i ≡ sector d n i

-- the lines of the log
pub data Line : Type 0 where
  failed_to_open : Line
  submit_io : ℕ → Line
  write_failed : Line
  write_success : Line
  read_failed : Line
  read_sector : List ℕ → Line

-- "Hello, World!"
abbrev pub hello_world : List ℕ
hello_world = 72 ∷ 101 ∷ 108 ∷ 108 ∷ 111 ∷ 44 ∷ 32 ∷ 87 ∷ 111 ∷ 114 ∷ 108 ∷ 100 ∷ 33 ∷ []

abbrev pub strcpy : Bytes → List ℕ → Bytes
strcpy m bs = store (store_all m 0 bs) (length bs) 0

-- What the calls answer: `blkdev_get_by_path`, the two `kmalloc`s with what is in the memory, and
-- the two `bio_alloc`s.
pub record Answers : Type 0 where
  pub refused : Option Errno
  pub read_buffer : Option Bytes
  pub write_buffer : Option Bytes
  pub first_bio : Bool
  pub second_bio : Bool

module _ (B : BlockApi) where
  -- The device, how often it is open, the buffers, the number of bios, and the log.
  pub record State : Type 0 where
    pub disk : B.Disk
    pub opened : ℕ
    pub read_buffer : Option Bytes
    pub write_buffer : Option Bytes
    pub bios : ℕ
    pub lines : List Line

  abbrev pub printk : Line → State → State
  printk l s = record s { lines = s.lines ++ (l ∷ []) }

  -- the transfer, between the buffer for the operation and the device; its result is dropped
  unfoldable pub submit : Op → ℕ → Bytes → State → State
  submit req_op_read n buffer s = record s { read_buffer = some (B.submit_read n s.disk buffer).1 }
  submit req_op_write n buffer s =
      let written = strcpy buffer hello_world in
      record s { disk = (B.submit_write n written s.disk).1; write_buffer = some written }

  -- The flag is what `bio_alloc` answers. Nothing frees the bio.
  unfoldable pub submit_custom_bio : Bool → ℕ → Op → Bytes → State → Ret × State
  unfolding submit
  submit_custom_bio false n op buffer s = (err enomem, s)
  submit_custom_bio true n op buffer s =
      (val 0, submit op n buffer (printk (submit_io n) (record s { bios = s.bios + 1 })))

  unfoldable pub cleanup : Ret → State → Ret × State
  cleanup ret s = (ret, record s { opened = s.opened - 1; read_buffer = none; write_buffer = none })

  -- what `%s` shows of the read buffer
  abbrev pub shown : Option Bytes → List ℕ
  shown none = []
  shown (some m) = read_text sector_size m 0

  unfoldable pub read_back : Bool → Bytes → State → Ret × State
  unfolding submit_custom_bio cleanup
  read_back bio m s = after (submit_custom_bio bio 2 req_op_read m s)
    where
      after : Ret × State → Ret × State
      after (err e, t) = cleanup (err e) (printk read_failed t)
      after (val n, t) = cleanup (val n) (printk (read_sector (shown t.read_buffer)) t)

  unfoldable pub write_out : Answers → Bytes → Bytes → State → Ret × State
  unfolding submit_custom_bio cleanup read_back
  write_out a r w s = after (submit_custom_bio a.first_bio 2 req_op_write w s)
    where
      after : Ret × State → Ret × State
      after (err e, t) = cleanup (err e) (printk write_failed t)
      after (val n, t) = read_back a.second_bio r (printk write_success t)

  -- what is behind the two allocations
  unfoldable pub with_buffers : Answers → Option Bytes → Option Bytes → State → Ret × State
  unfolding write_out cleanup
  with_buffers a none w s = cleanup (err enomem) s
  with_buffers a (some r) none s = cleanup (err enomem) s
  with_buffers a (some r) (some w) s = write_out a r w s

  unfoldable pub my_module_init : Answers → State → Ret × State
  unfolding with_buffers
  my_module_init a s = elim a.refused [
    | some e ↦ (err e, printk failed_to_open s)
    | none ↦ with_buffers a a.read_buffer a.write_buffer (record s {
      opened = s.opened + 1;
      read_buffer = a.read_buffer;
      write_buffer = a.write_buffer;
    })
  ]
