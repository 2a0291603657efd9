-- ===== src/Strings.antt =====
-- src/string/main.c: a string in a buffer that grows.
pub mod Growth
pub mod Join
pub mod Search
pub mod Parts
pub mod Substring
pub mod Init
pub mod Lifecycle
mod Tests
use learn_k.Base.{
  ℕ, zero, suc, ◌+◌, ◌-◌, ◌/◌, ◌%◌, ◌^◌, Bool, true, false, not, ◌&&◌, ◌||◌, Option, none, some,
  List, [], ◌∷◌, ltb, leb, ◌==◌, if◌then◌else◌, length,
}
use learn_k.Base.Int.{ℤ, pos, negsuc, ltb_ℤ, u32, pos_part}
use learn_k.Memory.{Bytes, store, store_all, slice}
use learn_k.Kernel.{Run, done, blocked, oops, ◌>>=◌, ◌>>◌}

-- `struct string_view`, with the bytes of its buffer. A C string that is passed in is the list of
-- its bytes before the terminator. The searches are exact where `s->len` is below 2^31.
pub record StringView : Type 0 where
  pub str : Bytes
  pub len : ℕ
  pub cap : ℕ

-- The two flags say whether each `kmalloc` succeeds; `garbage` is what the new buffer holds.
unfoldable pub string_new_cap : Bool → Bool → Bytes → List ℕ → ℕ → Option StringView
string_new_cap first second garbage str cap =
    let len = length str in
    if ltb cap len
    then none
    else if first && second
    then some (record { str = store (store_all garbage 0 str) len 0; len = len; cap = cap })
    else none

-- `do_div(n, base)` leaves the quotient in `n` and returns the remainder, so this is what
-- `s->cap` is after one turn.
abbrev pub next_cap : ℕ → ℕ
next_cap cap =
    if leb cap 4096
    then cap + cap
    else if leb cap 8192
    then cap / 2 + cap % 2
    else cap / 4 + cap % 4

-- the `while` of `string_growup`; `none` if it takes more turns than `fuel`
unfoldable pub grow : ℕ → (wanted cap : ℕ) → Option ℕ
grow zero wanted cap = none
grow (suc fuel) wanted cap =
    let rest = grow fuel wanted (next_cap cap) in if leb cap wanted then rest else some cap

-- `krealloc`, where it succeeds, keeps the bytes that the old buffer had.
abbrev pub krealloc : Bytes → Bytes → ℕ → Bytes
krealloc garbage m old i = if ltb i old then m i else garbage i

-- The flag says whether `krealloc` succeeds. The result is not tested: the first use of the buffer,
-- in `string_join`, is that of a null pointer, so the crash is put here.
unfoldable pub string_growup : ℕ → Bool → Bytes → ℕ → StringView → Run StringView (Unit {0})
unfolding grow
string_growup fuel reallocated garbage wanted s = elim (grow fuel wanted s.cap) [
  | none ↦ blocked
  | some cap ↦
      if not (leb s.cap wanted)
      then done tt s
      else if reallocated
      then done tt (record { str = krealloc garbage s.str s.cap; len = s.len; cap = cap })
      else oops
]

-- `strlen(m + i)`, counted on from `i`; `none` if there is no terminator within `fuel` bytes
unfoldable pub strlen_from : ℕ → Bytes → ℕ → Option ℕ
strlen_from zero m i = none
strlen_from (suc fuel) m i =
    let rest = strlen_from fuel m (i + 1) in if m i == 0 then some i else rest

-- the first `n` bytes of a C string
abbrev pub at_most : ℕ → List ℕ → List ℕ
at_most zero bs = []
at_most (suc n) [] = []
at_most (suc n) (b ∷ bs) = b ∷ at_most n bs

-- `strncat(m, bs, n)`
unfoldable pub strncat : ℕ → Bytes → List ℕ → ℕ → Option Bytes
unfolding strlen_from
strncat fuel m bs n = elim (strlen_from fuel m 0) [
  | none ↦ none
  | some e ↦ some (store (store_all m e (at_most n bs)) (e + length (at_most n bs)) 0)
]

-- `strncat` and the rest of `string_join`
unfoldable pub append_to : ℕ → List ℕ → StringView → Run StringView (Unit {0})
unfolding strncat
append_to fuel bs s = elim (strncat fuel s.str bs (s.cap - s.len)) [
  | none ↦ blocked
  | some m ↦
      let len = (s.len + length bs) % 2 ^ 32 in
      done tt (record { str = store m len 0; len = len; cap = s.cap })
]

unfoldable pub string_join : ℕ → Bool → Bytes → List ℕ → StringView → Run StringView (Unit {0})
string_join fuel reallocated garbage bs s =
    let sum = (s.len + length bs) % 2 ^ 32 in
    if ltb sum s.cap
    then append_to fuel bs s
    else (string_growup fuel reallocated garbage sum >> append_to fuel bs) s

-- `strncmp(m + p, bs, strlen(bs)) == 0`
unfoldable pub strncmp_eq : Bytes → ℕ → List ℕ → Bool
strncmp_eq m p [] = true
strncmp_eq m p (b ∷ bs) = (m p == b) && strncmp_eq m (p + 1) bs

-- `int len = strlen(str)` as it compares with the unsigned `s->len`
abbrev pub int_len : List ℕ → ℕ
int_len bs = length bs % 2 ^ 32

-- the loop of `string_index` at `i`, with `n` places to go
unfoldable pub index_loop : Bytes → List ℕ → (n i : ℕ) → ℤ
unfolding strncmp_eq
index_loop m bs zero i = negsuc 0
index_loop m bs (suc n) i =
    let rest = index_loop m bs n (i + 1) in if strncmp_eq m i bs then pos i else rest

unfoldable pub string_index : StringView → List ℕ → ℤ
unfolding index_loop
string_index s bs =
    let len = int_len bs in
    if ltb s.len len then negsuc 0 else index_loop s.str (at_most len bs) (s.len - len + 1) 0

-- the loop of `string_last_index` from `n - 1` down
unfoldable pub last_index_loop : Bytes → List ℕ → ℕ → ℤ
unfolding strncmp_eq
last_index_loop m bs zero = negsuc 0
last_index_loop m bs (suc i) =
    let rest = last_index_loop m bs i in if strncmp_eq m i bs then pos i else rest

unfoldable pub string_last_index : StringView → List ℕ → ℤ
unfolding last_index_loop
string_last_index s bs =
    let len = int_len bs in
    if ltb s.len len then negsuc 0 else last_index_loop s.str (at_most len bs) (s.len - len + 1)

unfoldable pub string_len : StringView → ℕ
string_len s = s.len

-- Like `string_substring`, for a buffer with no terminator before `s->len`. The flag says whether
-- `kmalloc` succeeds.
unfoldable pub string_char : Bool → StringView → Option (List ℕ)
string_char allocated s = if allocated then some (slice s.str 0 s.len) else none

unfoldable pub string_has_prefix : StringView → List ℕ → Bool
unfolding strncmp_eq
string_has_prefix s bs =
    let len = int_len bs in if ltb s.len len then false else strncmp_eq s.str 0 (at_most len bs)

unfoldable pub string_has_suffix : StringView → List ℕ → Bool
unfolding strncmp_eq
string_has_suffix s bs =
    let len = int_len bs in
    if ltb s.len len then false else strncmp_eq s.str (s.len - len) (at_most len bs)

-- `strstr(m, bs)` among the `n` places from `i` on, as an offset
unfoldable pub strstr_from : Bytes → List ℕ → (n i : ℕ) → Option ℕ
unfolding strncmp_eq
strstr_from m bs zero i = none
strstr_from m bs (suc n) i =
    let rest = strstr_from m bs n (i + 1) in if strncmp_eq m i bs then some i else rest

abbrev pub is_place : Option ℕ → Bool
is_place none = false
is_place (some i) = true

-- the places that `strstr` looks at in a string of `l1` bytes
abbrev pub strstr_places : (l1 l2 : ℕ) → ℕ
strstr_places l1 l2 = if ltb l1 l2 then 0 else l1 - l2 + 1

-- `strstr(m, bs) != NULL`; `none` if there is no terminator within `fuel` bytes
unfoldable pub strstr_found : ℕ → Bytes → List ℕ → Option Bool
unfolding strlen_from strstr_from
strstr_found fuel m bs = elim (strlen_from fuel m 0) [
  | none ↦ none
  | some l1 ↦ some (is_place (strstr_from m bs (strstr_places l1 (length bs)) 0))
]

unfoldable pub string_has_substring : ℕ → StringView → List ℕ → Option Bool
unfolding strstr_found
string_has_substring fuel s bs =
    if ltb s.len (int_len bs) then some false else strstr_found fuel s.str bs

-- `end > s->len` compares as `unsigned int`. The flag says whether `kmalloc` succeeds.
unfoldable pub string_substring : Bool → StringView → ℤ → ℤ → Option (List ℕ)
string_substring allocated s start end =
    if ltb_ℤ start (pos 0) || ltb s.len (u32 end) || not_below start end
    then none
    else if allocated
    then some (slice s.str (pos_part start) (pos_part end - pos_part start))
    else none
  where
    -- `start >= end`
    not_below : ℤ → ℤ → Bool
    not_below a b = if ltb_ℤ a b then false else true
