-- ===== src/Kernel/Flat.antt =====
-- A process with 65536 bytes of memory: a transfer that leaves it faults as a whole.
use learn_k.Base.{ℕ, ◌+◌, ◌≡◌, List, arith, leb, if◌then◌else◌, length}
use learn_k.Memory.{Bytes, slice, store_all}
use learn_k.Memory.Laws.{length-slice, slice-store_all}
use learn_k.Kernel.User.{UserMem}

abbrev pub user_size : ℕ
user_size = 0x10000

abbrev pub give : Bytes → ℕ → List ℕ → ℕ × Bytes
give u a bs = if leb (a + length bs) user_size then (0, store_all u a bs) else (length bs + 1, u)

abbrev pub fetch : Bytes → ℕ → ℕ → ℕ × List ℕ
fetch u a n = if leb (a + n) user_size then (0, slice u a n) else (n + 1, slice (λ _. 0) 0 n)

pub length-fetch : (u : Bytes) (a n : ℕ) → length (fetch u a n).1 ≡ n
length-fetch u a n = ground (arith, length-slice u a n, length-slice (λ _. 0) 0 n)

pub fetch-view : (u : Bytes) (a n : ℕ) → (fetch u a n).0 ≡ 0 → (fetch u a n).1 ≡ slice u a n
fetch-view u a n h = ground arith

pub view-give :
    (u : Bytes) (a : ℕ) (bs : List ℕ)
    → (give u a bs).0 ≡ 0
    → slice (give u a bs).1 a (length bs) ≡ bs
view-give u a bs h = ground (arith, slice-store_all u a bs)

abbrev pub flat : UserMem
flat = record {
  User = Bytes;
  view = slice;
  copy_to_user = give;
  copy_from_user = fetch;
  length-copy_from_user = length-fetch;
  copy_from_user-view = fetch-view;
  view-copy_to_user = view-give;
}
