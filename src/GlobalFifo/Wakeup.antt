-- ===== src/GlobalFifo/Wakeup.antt =====
-- No wake-up is lost: a thread sleeps only while what it waits for has not happened.
use learn_k.Base.{ℕ, ◌≡◌, refl, Bool, true, false, List, [], ◌∷◌, arith, not}
use learn_k.GlobalFifo.Machine.{
  Platform, hellodev_size, Request, ioctl, Pc, idle, r_lock, r_test, r_asleep, r_lost, w_test,
  w_asleep, System, Event, call, run, signal, touch, lose, begin, wake_reader, wake_writer,
  take_out, read_body, put_in, write_body, go_on, interrupt, enter, run_all,
}

-- a reader, or a writer, in `schedule` that nobody has woken
unfoldable pub reader_sleeps : Pc → Bool
reader_sleeps (r_asleep buf count nonblock woken) = not woken
reader_sleeps (r_lost buf count nonblock) = true
reader_sleeps pc = false

unfoldable pub writer_sleeps : Pc → Bool
writer_sleeps (w_asleep buf count nonblock woken) = not woken
writer_sleeps pc = false

unfoldable pub is_lost : Pc → Bool
is_lost (r_lost buf count nonblock) = true
is_lost pc = false

-- A reader sleeps only on an empty FIFO, and a writer only on a full one; no entry is lost.
pub record IsAwake {User : Type 0} (s : System User) : Type 0 where
  pub readers : (u : ℕ) → reader_sleeps (s.threads u) ≡ true → s.current_len ≡ 0
  pub writers : (u : ℕ) → writer_sleeps (s.threads u) ≡ true → s.current_len ≡ hellodev_size
  pub kept : (u : ℕ) → is_lost (s.threads u) ≡ false

wake_reader-reader_sleeps : (pc : Pc) → is_lost pc ≡ false → reader_sleeps (wake_reader pc) ≡ false
unfolding reader_sleeps wake_reader is_lost
wake_reader-reader_sleeps (r_asleep buf count nonblock woken) h = refl
wake_reader-reader_sleeps (r_lost buf count nonblock) h = absurd (cc)
wake_reader-reader_sleeps pc h = refl

wake_reader-is_lost : (pc : Pc) → is_lost (wake_reader pc) ≡ is_lost pc
unfolding is_lost wake_reader
wake_reader-is_lost (r_asleep buf count nonblock woken) = refl
wake_reader-is_lost pc = refl

wake_writer-is_lost : (pc : Pc) → is_lost (wake_writer pc) ≡ is_lost pc
unfolding is_lost wake_writer
wake_writer-is_lost (w_asleep buf count nonblock woken) = refl
wake_writer-is_lost pc = refl

wake_reader-writer_sleeps : (pc : Pc) → writer_sleeps (wake_reader pc) ≡ writer_sleeps pc
unfolding writer_sleeps wake_reader
wake_reader-writer_sleeps (r_asleep buf count nonblock woken) = refl
wake_reader-writer_sleeps pc = refl

wake_writer-writer_sleeps : (pc : Pc) → writer_sleeps (wake_writer pc) ≡ false
unfolding writer_sleeps wake_writer
wake_writer-writer_sleeps (w_asleep buf count nonblock woken) = refl
wake_writer-writer_sleeps pc = refl

wake_writer-reader_sleeps : (pc : Pc) → reader_sleeps (wake_writer pc) ≡ reader_sleeps pc
unfolding reader_sleeps wake_writer
wake_writer-reader_sleeps (w_asleep buf count nonblock woken) = refl
wake_writer-reader_sleeps pc = refl

module _ (U : Platform) where
  module _ (t : ℕ) (s : System U.users.User) (o : IsAwake s) where
    read_body-IsAwake :
        (buf count : ℕ) (nonblock : Bool) → IsAwake (read_body U t buf count nonblock s)
    unfolding read_body take_out reader_sleeps writer_sleeps is_lost
    read_body-IsAwake buf count nonblock = record {
      readers = λ u. ground (arith, o.readers u, wake_writer-reader_sleeps (s.threads u));
      writers = λ u. ground (arith, o.writers u, wake_writer-writer_sleeps (s.threads u));
      kept = λ u. ground (arith, o.kept u, wake_writer-is_lost (s.threads u));
    }

    write_body-IsAwake :
        (buf count : ℕ) (nonblock : Bool) → IsAwake (write_body U t buf count nonblock s)
    unfolding write_body put_in reader_sleeps writer_sleeps is_lost
    write_body-IsAwake buf count nonblock = record {
      readers = λ u. ground (arith, o.readers u, wake_reader-reader_sleeps (s.threads u), o.kept u);
      writers = λ u. ground (arith, o.writers u, wake_reader-writer_sleeps (s.threads u));
      kept = λ u. ground (arith, o.kept u, wake_reader-is_lost (s.threads u));
    }

    go_on-IsAwake : (pc : Pc) → IsAwake (go_on U t pc s)
    unfolding go_on reader_sleeps writer_sleeps is_lost
    go_on-IsAwake (r_test buf count nonblock) = read_body-IsAwake buf count nonblock
    go_on-IsAwake (w_test buf count nonblock) = write_body-IsAwake buf count nonblock
    go_on-IsAwake pc = record {
      readers = λ u. ground (arith, o.readers u);
      writers = λ u. ground (arith, o.writers u);
      kept = λ u. ground (arith, o.kept u);
    }

    interrupt-IsAwake : (pc : Pc) → IsAwake (interrupt U t pc s)
    unfolding interrupt reader_sleeps writer_sleeps is_lost
    interrupt-IsAwake idle = o
    interrupt-IsAwake pc = record {
      readers = λ u. ground (arith, o.readers u);
      writers = λ u. ground (arith, o.writers u);
      kept = λ u. ground (arith, o.kept u);
    }

    awake-begin :
        (req : Request)
        → (reader_sleeps (begin req) ≡ false)
          × (writer_sleeps (begin req) ≡ false)
          × (is_lost (begin req) ≡ false)
    unfolding begin reader_sleeps writer_sleeps is_lost
    awake-begin (ioctl cmd) = (ground arith, ground arith, ground arith)
    awake-begin req = (refl, refl, refl)

    enter-IsAwake : (req : Request) (pc : Pc) → IsAwake (enter U t req pc s)
    unfolding enter
    enter-IsAwake req (r_lock buf count nonblock) = o
    enter-IsAwake req pc = record {
      readers = λ u. ground (arith, o.readers u, (awake-begin req).0);
      writers = λ u. ground (arith, o.writers u, (awake-begin req).1);
      kept = λ u. ground (arith, o.kept u, (awake-begin req).2);
    }

  -- `r_wait` loses no entry.
  abbrev pub LosesNone : List (Event U.users.User) → Type 0
  LosesNone [] = Unit
  LosesNone (lose t ∷ es) = ⊥
  LosesNone (call t req ∷ es) = LosesNone es
  LosesNone (run t ∷ es) = LosesNone es
  LosesNone (signal t ∷ es) = LosesNone es
  LosesNone (touch user ∷ es) = LosesNone es

  -- In any interleaving in which `r_wait` loses no entry, which `hello_read` can do since it takes
  -- its entry out under the wrong lock, a reader that sleeps with nobody having woken it has nothing
  -- to read, and a writer that sleeps so has no room to write.
  pub run_all-IsAwake :
      (es : List (Event U.users.User)) (s : System U.users.User)
      → LosesNone es
      → IsAwake s
      → IsAwake (run_all U es s)
  unfolding run_all
  run_all-IsAwake [] s n o = o
  run_all-IsAwake (call t req ∷ es) s n o =
      run_all-IsAwake es _ n (enter-IsAwake t s o req (s.threads t))
  run_all-IsAwake (run t ∷ es) s n o = run_all-IsAwake es _ n (go_on-IsAwake t s o (s.threads t))
  run_all-IsAwake (signal t ∷ es) s n o =
      run_all-IsAwake es _ n (interrupt-IsAwake t s o (s.threads t))
  run_all-IsAwake (touch user ∷ es) s n o =
      run_all-IsAwake es _ n (record { readers = o.readers; writers = o.writers; kept = o.kept })
  run_all-IsAwake (lose t ∷ es) s n o = absurd n
