-- ===== src/GlobalFifo/Contents.antt =====
-- The bytes in the FIFO, and what one transfer does to them.
use learn_k.Base.{
  ℕ, ◌+◌, ◌-◌, ◌≤◌, ◌≡◌, refl, sym, ap, ◌∙◌, ◌⊎◌, inl, inr, none, List, ◌++◌, min, arith, ltb, ◌==◌,
  if◌then◌else◌, length, take, drop, Bool-cases,
}
use learn_k.Memory.{Bytes, slice, store_all}
use learn_k.Memory.Laws.{
  length-slice, slice_ext, slice-append, take-slice, drop-slice, slice-store_all_of_length,
  store_all_outside,
}
use learn_k.Kernel.{efault, val, err, view-copy_of_length, copied-view}
use learn_k.GlobalFifo.Machine.{Platform, hellodev_size, System, returned, take_out, put_in}

abbrev pub contents : {User : Type 0} → System User → List ℕ
contents s = slice s.mem 0 s.current_len

-- Moving the tail of the memory to the front drops the head of the contents.
pub slice-memcpy :
    (U : Platform) (m : Bytes) (n len : ℕ)
    → n ≤ len
    → slice (U.memcpy m 0 n (len - n)) 0 (len - n) ≡ slice m n (len - n)
slice-memcpy U m n len h =
    slice_ext _ m 0 n (len - n) (λ i hi. ground (arith, U.memcpy_lem m 0 n (len - n) i))

pub slice_split :
    (m : Bytes) (n len : ℕ) → n ≤ len → slice m 0 len ≡ slice m 0 n ++ slice m n (len - n)
slice_split m n len h =
    let e : len ≡ n + (len - n) = omega arith in
    ground (arith, ap (slice m 0) e, slice-append m 0 n (len - n))

-- Bytes stored behind the contents leave them as they were.
pub slice-store_all_before :
    (m : Bytes) (len n : ℕ) (bs : List ℕ)
    → length bs ≡ n
    → slice (store_all m len bs) 0 len ≡ slice m 0 len
slice-store_all_before m len n bs e =
    slice_ext (store_all m len bs) m 0 0 len
      (λ i h. store_all_outside m len n bs e (0 + i) (inl (omega arith)))

pub slice-store_all_append :
    (m : Bytes) (len n : ℕ) (bs : List ℕ)
    → length bs ≡ n
    → slice (store_all m len bs) 0 (len + n) ≡ slice m 0 len ++ bs
slice-store_all_append m len n bs e = ground (
  arith,
  slice-append (store_all m len bs) 0 len n,
  slice-store_all_of_length m len n bs e,
  slice-store_all_before m len n bs e,
)

clip-min : (a b : ℕ) → (if ltb b a then b else a) ≡ min a b
clip-min a b = ground arith

-- What `hello_read` for `count` bytes leaves on a FIFO that is not empty: the oldest bytes go to
-- the process and leave the FIFO, or a fault leaves the FIFO as it was. The mutex is free.
abbrev pub TookOut : (U : Platform) → (t buf count : ℕ) → (s s' : System U.users.User) → Type 0
TookOut U t buf count s s' =
    let n = min count s.current_len in
    (s'.mutex ≡ none)
    × (s'.sent ≡ s.sent)
    × (((s'.threads t ≡ returned (val n))
          × (U.users.view s'.user buf n ≡ take n (contents s))
          × (s'.got ≡ s.got ++ take n (contents s))
          × (contents s' ≡ drop n (contents s)))
        ⊎ ((s'.threads t ≡ returned (err efault)) × (s'.got ≡ s.got) × (contents s' ≡ contents s)))

-- What `hello_write` of `count` bytes leaves on a FIFO that is not full: the bytes that fit, in the
-- order given, behind those queued, or a fault and the queued bytes as they were.
abbrev pub PutIn : (U : Platform) → (t buf count : ℕ) → (s s' : System U.users.User) → Type 0
PutIn U t buf count s s' =
    let n = min count (hellodev_size - s.current_len) in
    (s'.mutex ≡ none)
    × (s'.got ≡ s.got)
    × (((s'.threads t ≡ returned (val n))
          × (s'.sent ≡ s.sent ++ U.users.view s.user buf n)
          × (contents s' ≡ contents s ++ U.users.view s.user buf n))
        ⊎ ((s'.threads t ≡ returned (err efault))
            × (s'.sent ≡ s.sent)
            × (contents s' ≡ contents s)))

module _ (U : Platform) (t buf count : ℕ) (s : System U.users.User) where
  -- The part of `hello_read` behind its wait takes the oldest bytes out, as many as were asked for
  -- and are there, or faults.
  pub take_out-TookOut : TookOut U t buf count s (take_out U t buf count s)
  unfolding take_out
  take_out-TookOut =
      rw (clip-min count s.current_len)
        (elim (Bool-cases ((U.users.copy_to_user s.user buf (slice s.mem 0 n)).0 == 0)) [
          | inl ok ↦ rw ok (
            refl,
            refl,
            inl (
              ground arith,
              view-copy_of_length U.users s.user buf n _ (length-slice s.mem 0 n) ok ∙ sym oldest,
              ap (λ bs. s.got ++ bs) (sym oldest),
              rest,
            ),
          )
          | inr bad ↦ rw bad (refl, refl, inr (ground arith, refl, refl))
        ])
    where
      n : ℕ
      n = min count s.current_len

      oldest : take n (contents s) ≡ slice s.mem 0 n
      oldest = take-slice s.mem 0 s.current_len n (omega arith)

      rest :
          slice (U.memcpy s.mem 0 n (s.current_len - n)) 0 (s.current_len - n) ≡ drop n (contents s)
      rest =
          ground (arith, slice-memcpy U s.mem n s.current_len, drop-slice s.mem 0 s.current_len n)

  -- The part of `hello_write` behind its wait appends the process's bytes, as many as fit, or
  -- faults.
  pub put_in-PutIn : PutIn U t buf count s (put_in U t buf count s)
  unfolding put_in
  put_in-PutIn =
      rw (clip-min count (hellodev_size - s.current_len))
        (elim (Bool-cases ((U.users.copy_from_user s.user buf n).0 == 0)) [
          | inl ok ↦ rw ok (
            refl,
            refl,
            inl (
              ground arith,
              ap (λ bs. s.sent ++ bs) (copied-view U.users s.user buf n ok),
              slice-store_all_append s.mem s.current_len n _
                    (U.users.length-copy_from_user s.user buf n)
                  ∙ ap (λ bs. contents s ++ bs) (copied-view U.users s.user buf n ok),
            ),
          )
          | inr bad ↦ rw bad (
            refl,
            refl,
            inr (
              ground arith,
              refl,
              slice-store_all_before s.mem s.current_len n _
                  (U.users.length-copy_from_user s.user buf n),
            ),
          )
        ])
    where
      n : ℕ
      n = min count (hellodev_size - s.current_len)
