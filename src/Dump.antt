-- ===== src/Dump.antt =====
-- src/dump/dumps.c: a record of a number and a name, packed into bytes and back.
pub mod RoundTrip
pub mod Init
mod Tests
use learn_k.Base.{
  ℕ, zero, suc, ◌+◌, ◌-◌, ◌*◌, ◌/◌, ◌%◌, ◌^◌, Bool, Option, none, some, List, [], ◌∷◌, ◌++◌,
  if◌then◌else◌, length,
}
use learn_k.Memory.{Bytes, store_all, slice}
use learn_k.Strings.{strlen_from}

-- `struct params`; the name is the bytes before the terminator.
pub record Params : Type 0 where
  pub id : ℕ
  pub name : List ℕ

-- the bytes of an `unsigned int`, little-endian
abbrev pub to_bytes : ℕ → List ℕ
to_bytes n = n % 256 ∷ n / 2 ^ 8 % 256 ∷ n / 2 ^ 16 % 256 ∷ n / 2 ^ 24 % 256 ∷ []

abbrev pub from_bytes : Bytes → ℕ
from_bytes m = m 0 + m 1 * 2 ^ 8 + m 2 * 2 ^ 16 + m 3 * 2 ^ 24

-- a block, with the bytes from its first on and the size asked for
pub record Block : Type 0 where
  pub bytes : Bytes
  pub size : ℕ

-- The flag says whether `dump_alloc` succeeds; `garbage` is what the new buffer and the memory behind
-- it hold. `len` is an `int`, as its bits.
unfoldable pub marshal : Bool → Bytes → Params → Option Block
marshal allocated garbage p =
    let len = (4 + length p.name + 1) % 2 ^ 32 in
    if allocated
    then some (record {
      bytes = store_all (store_all garbage 0 (to_bytes p.id)) 4 (p.name ++ (0 ∷ []));
      size = len;
    })
    else none

-- What `unmarshal` leaves in `params`: -1 if there is no memory for the name, or `none` if there is
-- no terminator within `fuel` bytes.
pub data Result : Type 0 where
  ok : Params → Result
  failed : Result

unfoldable pub unmarshal : ℕ → Bool → Bytes → Option Result
unmarshal fuel allocated buf = elim (strlen_from fuel buf 4) [
  | none ↦ none
  | some end ↦ some (
      if allocated
      then ok (record { id = from_bytes buf; name = slice buf 4 (end - 4) })
      else failed)
]
