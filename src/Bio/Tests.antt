-- ===== src/Bio/Tests.antt =====
-- Runs of src/bio/main.c with the RAM disk as its device.
use learn_k.Base.{true, false, ◌≡◌, refl, none, some, [], ◌∷◌}
use learn_k.Memory.{Bytes, memcpy, store, store_all}
use learn_k.Kernel.{enomem, err, val}
use learn_k.Bdev.{each_segment, transfer, logs, ramblock_process_request}
use learn_k.Bio.{
  Answers, State, hello_world, my_module_init, submit_io, write_success, read_sector, write_failed,
}
use learn_k.Bio.Ramblock.{ramblock, run}
use learn_k.Bio.Cleanup.{Leaves, my_module_init-Leaves, my_module_init-reads_back}

-- memory that is not clear
abbrev garbage : Bytes
garbage i = 42

abbrev before : State ramblock
before = record {
  disk = garbage;
  opened = 0;
  read_buffer = none;
  write_buffer = none;
  bios = 0;
  lines = write_failed ∷ [];
}

-- There is no memory for the second bio.
abbrev no_second : Answers
no_second = record {
  refused = none;
  read_buffer = some garbage;
  write_buffer = some garbage;
  first_bio = true;
  second_bio = false;
}

my_module_init-Leaves_example :
    Leaves ramblock before (err enomem, 1) (my_module_init ramblock no_second before)
my_module_init-Leaves_example = my_module_init-Leaves ramblock no_second before refl refl

abbrev all_there : Answers
all_there = record no_second { second_bio = true }

my_module_init-reads_back_example :
    ((my_module_init ramblock all_there before).0 ≡ val 0)
    × ((my_module_init ramblock all_there before).1.lines
        ≡ write_failed ∷ submit_io 2 ∷ write_success ∷ submit_io 2 ∷ read_sector hello_world ∷ [])
unfolding run ramblock_process_request each_segment transfer logs memcpy store store_all
my_module_init-reads_back_example =
    my_module_init-reads_back ramblock garbage garbage before refl refl
