-- ===== src/Bdev/Setup.antt =====
-- `ramblock_init` and `ramblock_exit` of src/bdev/main.c: what the module holds.
use learn_k.Base.{ℕ, Bool, true, false, Option, none, some, if◌then◌else◌, ◌≡◌, refl}
use learn_k.Base.Int.{ℤ, pos, negsuc}

-- The memory of the disk, the tag set, the disk, and whether that is added.
pub record Module : Type 0 where
  pub data_held : Bool
  pub tags_held : Bool
  pub disk_held : Bool
  pub added : Bool

-- What the kernel answers: `vmalloc`, `blk_mq_alloc_tag_set`, and for `blk_mq_alloc_disk` and
-- `blk_mq_init_queue` the error that the pointer stands for, `n` for -(n + 1), if it is one; whether
-- `add_disk` succeeds.
pub record Answers : Type 0 where
  pub vmalloc : Bool
  pub alloc_tag_set : Bool
  pub alloc_disk : Option ℕ
  pub init_queue : Option ℕ
  pub add_disk : Bool

-- `-ENOMEM`
abbrev pub enomem : ℤ
enomem = negsuc 11

-- from `set_capacity` on
unfoldable pub attach_queue : Answers → Module → ℤ × Module
attach_queue a m = elim a.init_queue [
  | some e ↦ (enomem, record m { tags_held = false })
  | none ↦ (pos 0, record m { added = a.add_disk })
]

unfoldable pub ramblock_init : Answers → Module → ℤ × Module
unfolding attach_queue
ramblock_init a m =
    if a.vmalloc
    then (if a.alloc_tag_set
        then elim a.alloc_disk [
          | some e ↦ (negsuc e, record m { data_held = false; tags_held = false })
          | none ↦
              attach_queue a (record m { data_held = true; tags_held = true; disk_held = true })
        ]
        else (enomem, record m { data_held = false }))
    else (enomem, m)

unfoldable pub ramblock_exit : Module → Module
ramblock_exit m =
    let m₁ = if m.disk_held then record m { added = false; disk_held = false } else m in
    record m₁ { tags_held = false; data_held = false }

-- before the module is loaded
abbrev pub unloaded : Module
unloaded = record { data_held = false; tags_held = false; disk_held = false; added = false }

-- The disk is ready, and the exit gives back all.
pub record IsReady (a : Answers) (out : ℤ × Module) : Type 0 where
  pub status : out.0 ≡ pos 0
  pub disk : out.1.disk_held ≡ true
  pub added : out.1.added ≡ a.add_disk
  pub clean : ramblock_exit out.1 ≡ unloaded

-- An error, with what is left: the memory and the disk if it was the queue that failed.
pub record IsRefused (left : Bool) (out : ℤ × Module) : Type 0 where
  pub status : (n : ℕ) × (out.0 ≡ negsuc n)
  pub data_left : out.1.data_held ≡ left
  pub disk_left : out.1.disk_held ≡ left
  pub tags : out.1.tags_held ≡ false
  pub not_added : out.1.added ≡ false

abbrev pub ReadyQueue : Answers → Option ℕ → ℤ × Module → Type 0
ReadyQueue a none out = IsReady a out
ReadyQueue a (some e) out = IsRefused true out

abbrev pub ReadyDisk : Answers → Option ℕ → ℤ × Module → Type 0
ReadyDisk a none out = ReadyQueue a a.init_queue out
ReadyDisk a (some e) out = IsRefused false out

abbrev pub InitDone : Answers → ℤ × Module → Type 0
InitDone a out =
    if a.vmalloc
    then (if a.alloc_tag_set then ReadyDisk a a.alloc_disk out else IsRefused false out)
    else IsRefused false out

-- `ramblock_init` returns 0 with the disk added if that succeeds, and `ramblock_exit` then gives
-- back all; or it returns an error. An error leaves nothing behind, but for a failure of
-- `blk_mq_init_queue`, after which the memory and the disk are still held.
pub ramblock_init_lem : (a : Answers) → InitDone a (ramblock_init a unloaded)
unfolding ramblock_init ramblock_exit attach_queue
ramblock_init_lem a = answers a.vmalloc a.alloc_tag_set a.alloc_disk a.init_queue
  where
    refused : (n : ℕ) → IsRefused false (negsuc n, unloaded)
    refused n = record {
      status = (n, refl);
      data_left = refl;
      disk_left = refl;
      tags = refl;
      not_added = refl;
    }

    answers :
        (v t : Bool) (d q : Option ℕ)
        → let b = record a { vmalloc = v; alloc_tag_set = t; alloc_disk = d; init_queue = q } in
          InitDone b (ramblock_init b unloaded)
    answers false t d q = refused 11
    answers true false d q = refused 11
    answers true true (some e) q = refused e
    answers true true none (some e) = record {
      status = (11, refl);
      data_left = refl;
      disk_left = refl;
      tags = refl;
      not_added = refl;
    }
    answers true true none none = record { status = refl; disk = refl; added = refl; clean = refl }
