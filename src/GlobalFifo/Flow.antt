-- ===== src/GlobalFifo/Flow.antt =====
-- What any interleaving of readers and writers does to the bytes: a FIFO of at most 4096 bytes.
use learn_k.Base.{
  ℕ, ◌-◌, ◌≤◌, ◌≡◌, ◌≢◌, refl, inl, inr, Bool, true, false, List, [], ◌∷◌, ◌++◌, min, arith, ltb,
  ◌==◌, if◌then◌else◌, take, drop, Bool-cases, take-append-drop,
}
use mathlib.Core.List.{append_assoc}
use learn_k.Memory.{Bytes}
use learn_k.Memory.Laws.{store_all_outside}
use learn_k.GlobalFifo.Machine.{
  Platform, hellodev_size, mem_clear, Request, ioctl, Pc, idle, r_test, r_asleep, w_test, w_asleep,
  i_lock, i_test, returned, System, Event, call, run, signal, touch, lose, lose_entry, begin,
  wake_reader, wake_writer, take_out, read_body, put_in, write_body, go_on, interrupt, enter,
  run_all,
}
use learn_k.GlobalFifo.Contents.{contents, TookOut, PutIn, take_out-TookOut, put_in-PutIn}

-- No thread clears the memory.
abbrev pub CallsNoClear : {User : Type 0} → List (Event User) → Type 0
CallsNoClear [] = Unit
CallsNoClear (call t req ∷ es) = ((cmd : ℕ) → req ≡ ioctl cmd → cmd ≢ mem_clear) × CallsNoClear es
CallsNoClear (e ∷ es) = CallsNoClear es

-- The places of a thread inside the clearing `ioctl`.
unfoldable pub clears : Pc → Bool
clears i_lock = true
clears i_test = true
clears pc = false

-- What was sent is what was got, followed by what is queued. The queue fits into the device, and
-- the bytes behind the device are those of `m`.
pub record Flows {User : Type 0} (m : Bytes) (s : System User) : Type 0 where
  pub fits : s.current_len ≤ hellodev_size
  pub order : s.sent ≡ s.got ++ contents s
  pub behind : (i : ℕ) → hellodev_size ≤ i → s.mem i ≡ m i

module _ (U : Platform) (m : Bytes) where
  TookOut-order :
      (t buf count : ℕ) (s s' : System U.users.User)
      → TookOut U t buf count s s'
      → s.sent ≡ s.got ++ contents s
      → s'.sent ≡ s'.got ++ contents s'
  TookOut-order t buf count s s' out order =
      let n = min count s.current_len in
      ground (
        arith,
        append_assoc s.got (take n (contents s)) (drop n (contents s)),
        take-append-drop n (contents s),
      )

  PutIn-order :
      (t buf count : ℕ) (s s' : System U.users.User)
      → PutIn U t buf count s s'
      → s.sent ≡ s.got ++ contents s
      → s'.sent ≡ s'.got ++ contents s'
  PutIn-order t buf count s s' put order =
      let n = min count (hellodev_size - s.current_len) in
      ground (arith, append_assoc s.got (contents s) (U.users.view s.user buf n))

  take_out-Flows :
      (t buf count : ℕ) (s : System U.users.User) → Flows m s → Flows m (take_out U t buf count s)
  unfolding take_out
  take_out-Flows t buf count s f = record {
    fits = ground arith;
    order =
        TookOut-order t buf count s (take_out U t buf count s) (take_out-TookOut U t buf count s)
          f.order;
    behind = λ i h. ground (
      arith,
      f.behind i,
      U.memcpy_lem s.mem 0 (if ltb s.current_len count then s.current_len else count)
          (s.current_len - (if ltb s.current_len count then s.current_len else count)) i,
    );
  }

  put_in-Flows :
      (t buf count : ℕ) (s : System U.users.User) → Flows m s → Flows m (put_in U t buf count s)
  unfolding put_in
  put_in-Flows t buf count s f = record {
    fits = ground arith;
    order =
        PutIn-order t buf count s (put_in U t buf count s) (put_in-PutIn U t buf count s) f.order;
    behind = λ i h.
        let n =
          if ltb (hellodev_size - s.current_len) count
          then hellodev_size - s.current_len
          else count in
        ground (
          arith,
          f.behind i,
          store_all_outside s.mem s.current_len n _ (U.users.length-copy_from_user s.user buf n) i,
        );
  }

  -- A change elsewhere in the system.
  same-Flows :
      (s s' : System U.users.User)
      → s'.current_len ≡ s.current_len
      → s'.mem ≡ s.mem
      → s'.sent ≡ s.sent
      → s'.got ≡ s.got
      → Flows m s
      → Flows m s'
  same-Flows s s' e₁ e₂ e₃ e₄ f = record {
    fits = ground arith;
    order = ground (arith, f.order);
    behind = λ i h. ground (arith, f.behind i);
  }

  read_body-Flows :
      (t buf count : ℕ) (nonblock : Bool) (s : System U.users.User)
      → Flows m s
      → Flows m (read_body U t buf count nonblock s)
  unfolding read_body
  read_body-Flows t buf count nonblock s f = elim (Bool-cases (s.current_len == 0)) [
    | inl empty ↦ rw empty (elim (Bool-cases nonblock) [
      | inl e ↦ rw e (record { fits = f.fits; order = f.order; behind = f.behind })
      | inr e ↦ rw e (record { fits = f.fits; order = f.order; behind = f.behind })
    ])
    | inr some_left ↦ rw some_left (take_out-Flows t buf count s f)
  ]

  write_body-Flows :
      (t buf count : ℕ) (nonblock : Bool) (s : System U.users.User)
      → Flows m s
      → Flows m (write_body U t buf count nonblock s)
  unfolding write_body
  write_body-Flows t buf count nonblock s f = elim (Bool-cases (s.current_len == hellodev_size)) [
    | inl full ↦ rw full (elim (Bool-cases nonblock) [
      | inl e ↦ rw e (record { fits = f.fits; order = f.order; behind = f.behind })
      | inr e ↦ rw e (record { fits = f.fits; order = f.order; behind = f.behind })
    ])
    | inr room ↦ rw room (put_in-Flows t buf count s f)
  ]

  go_on-Flows :
      (t : ℕ) (pc : Pc) (s : System U.users.User)
      → clears pc ≡ false
      → Flows m s
      → Flows m (go_on U t pc s)
  unfolding go_on clears
  go_on-Flows t (r_test buf count nonblock) s q f = read_body-Flows t buf count nonblock s f
  go_on-Flows t (w_test buf count nonblock) s q f = write_body-Flows t buf count nonblock s f
  go_on-Flows t i_lock s q f = cc
  go_on-Flows t i_test s q f = cc
  go_on-Flows t pc s q f =
      same-Flows s _ (ground arith) (ground arith) (ground arith) (ground arith) f

  interrupt-Flows :
      (t : ℕ) (pc : Pc) (s : System U.users.User) → Flows m s → Flows m (interrupt U t pc s)
  unfolding interrupt
  interrupt-Flows t idle s f = f
  interrupt-Flows t pc s f =
      same-Flows s _ (ground arith) (ground arith) (ground arith) (ground arith) f

  lose-Flows :
      (t : ℕ) (pc : Pc) (s : System U.users.User) → Flows m s → Flows m (lose_entry U t pc s)
  unfolding lose_entry
  lose-Flows t (r_asleep buf count nonblock false) s f = same-Flows s _ refl refl refl refl f
  lose-Flows t pc s f = f

  enter-Flows :
      (t : ℕ) (req : Request) (pc : Pc) (s : System U.users.User)
      → Flows m s
      → Flows m (enter U t req pc s)
  unfolding enter
  enter-Flows t req idle s f = same-Flows s _ refl refl refl refl f
  enter-Flows t req pc s f =
      same-Flows s _ (ground arith) (ground arith) (ground arith) (ground arith) f

  -- No thread is inside the clearing `ioctl`.
  abbrev pub Quiet : System U.users.User → Type 0
  Quiet s = (u : ℕ) → clears (s.threads u) ≡ false

  clears-wake_reader : (pc : Pc) → clears (wake_reader pc) ≡ clears pc
  unfolding clears wake_reader
  clears-wake_reader (r_asleep buf count nonblock woken) = refl
  clears-wake_reader pc = refl

  clears-wake_writer : (pc : Pc) → clears (wake_writer pc) ≡ clears pc
  unfolding clears wake_writer
  clears-wake_writer (w_asleep buf count nonblock woken) = refl
  clears-wake_writer pc = refl

  read_body-Quiet :
      (t buf count : ℕ) (nonblock : Bool) (s : System U.users.User)
      → Quiet s
      → Quiet (read_body U t buf count nonblock s)
  unfolding clears read_body take_out
  read_body-Quiet t buf count nonblock s q u = ground (arith, q u, clears-wake_writer (s.threads u))

  write_body-Quiet :
      (t buf count : ℕ) (nonblock : Bool) (s : System U.users.User)
      → Quiet s
      → Quiet (write_body U t buf count nonblock s)
  unfolding clears write_body put_in
  write_body-Quiet t buf count nonblock s q u =
      ground (arith, q u, clears-wake_reader (s.threads u))

  go_on-Quiet :
      (t : ℕ) (pc : Pc) (s : System U.users.User)
      → clears pc ≡ false
      → Quiet s
      → Quiet (go_on U t pc s)
  unfolding go_on clears
  go_on-Quiet t (r_test buf count nonblock) s n q u = read_body-Quiet t buf count nonblock s q u
  go_on-Quiet t (w_test buf count nonblock) s n q u = write_body-Quiet t buf count nonblock s q u
  go_on-Quiet t i_lock s n q u = cc
  go_on-Quiet t i_test s n q u = cc
  go_on-Quiet t pc s n q u = ground (arith, q u)

  interrupt-Quiet :
      (t : ℕ) (pc : Pc) (s : System U.users.User) → Quiet s → Quiet (interrupt U t pc s)
  unfolding interrupt clears
  interrupt-Quiet t idle s q u = q u
  interrupt-Quiet t pc s q u = ground (arith, q u)

  lose-Quiet : (t : ℕ) (pc : Pc) (s : System U.users.User) → Quiet s → Quiet (lose_entry U t pc s)
  unfolding lose_entry clears
  lose-Quiet t (r_asleep buf count nonblock false) s q u = ground (arith, q u)
  lose-Quiet t pc s q u = q u

  begin-clears :
      (req : Request) → ((cmd : ℕ) → req ≡ ioctl cmd → cmd ≢ mem_clear) → clears (begin req) ≡ false
  unfolding begin clears
  begin-clears (ioctl cmd) h = ground (arith, h cmd)
  begin-clears req h = refl

  enter-Quiet :
      (t : ℕ) (req : Request) (pc : Pc) (s : System U.users.User)
      → ((cmd : ℕ) → req ≡ ioctl cmd → cmd ≢ mem_clear)
      → Quiet s
      → Quiet (enter U t req pc s)
  unfolding enter
  enter-Quiet t req idle s h q u = ground (arith, q u, begin-clears req h)
  enter-Quiet t req (returned r) s h q u = ground (arith, q u, begin-clears req h)
  enter-Quiet t req pc s h q u = q u

  -- Whatever threads read, write, poll and wait, in whatever interleaving, as long as none clears
  -- the memory, and where `memcpy` copies whole to lower addresses even if the two regions overlap,
  -- which C leaves open: the bytes sent are, in order, those got followed by those queued; the queue holds
  -- at most 4096 bytes; and no byte behind the device's memory changes.
  pub run_all-Flows :
      (es : List (Event U.users.User)) (s : System U.users.User)
      → CallsNoClear es
      → Quiet s
      → Flows m s
      → Flows m (run_all U es s)
  unfolding run_all
  run_all-Flows [] s n q f = f
  run_all-Flows (call t req ∷ es) s n q f =
      run_all-Flows es _ n.1 (enter-Quiet t req (s.threads t) s n.0 q)
        (enter-Flows t req (s.threads t) s f)
  run_all-Flows (run t ∷ es) s n q f =
      run_all-Flows es _ n (go_on-Quiet t (s.threads t) s (q t) q)
        (go_on-Flows t (s.threads t) s (q t) f)
  run_all-Flows (signal t ∷ es) s n q f =
      run_all-Flows es _ n (interrupt-Quiet t (s.threads t) s q)
        (interrupt-Flows t (s.threads t) s f)
  run_all-Flows (touch user ∷ es) s n q f =
      run_all-Flows es _ n q (same-Flows s _ refl refl refl refl f)
  run_all-Flows (lose t ∷ es) s n q f =
      run_all-Flows es _ n (lose-Quiet t (s.threads t) s q) (lose-Flows t (s.threads t) s f)
