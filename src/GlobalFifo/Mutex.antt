-- ===== src/GlobalFifo/Mutex.antt =====
-- Mutual exclusion, and the second `mutex_lock` of `hello_poll`.
use learn_k.Base.{ℕ, ◌≡◌, refl, Bool, true, false, some, List, [], ◌∷◌, arith, ap}
use learn_k.GlobalFifo.Machine.{
  Platform, Request, ioctl, Pc, idle, r_test, r_asleep, w_test, w_asleep, i_test, p_again, returned,
  System, Event, call, run, signal, touch, lose, lose_entry, begin, wake_reader, wake_writer,
  take_out, read_body, put_in, write_body, go_on, interrupt, enter, step, run_all,
}

-- the places of a thread that has the mutex
unfoldable pub holds : Pc → Bool
holds (r_test buf count nonblock) = true
holds (w_test buf count nonblock) = true
holds i_test = true
holds (p_again mask) = true
holds pc = false

-- The mutex is held by exactly the thread that is between a lock and its unlock.
pub record IsOwned {User : Type 0} (s : System User) : Type 0 where
  pub owner : (u : ℕ) → holds (s.threads u) ≡ true → s.mutex ≡ some u
  pub inside : (u : ℕ) → s.mutex ≡ some u → holds (s.threads u) ≡ true

module _ (U : Platform) where
  holds-wake_reader : (pc : Pc) → holds (wake_reader pc) ≡ holds pc
  unfolding holds wake_reader
  holds-wake_reader (r_asleep buf count nonblock woken) = refl
  holds-wake_reader pc = refl

  holds-wake_writer : (pc : Pc) → holds (wake_writer pc) ≡ holds pc
  unfolding holds wake_writer
  holds-wake_writer (w_asleep buf count nonblock woken) = refl
  holds-wake_writer pc = refl

  module _ (t : ℕ) (s : System U.users.User) (o : IsOwned s) where
    -- a thread that has the mutex leaves it free
    read_body-IsOwned :
        (buf count : ℕ) (nonblock : Bool)
        → s.mutex ≡ some t
        → IsOwned (read_body U t buf count nonblock s)
    unfolding holds read_body take_out
    read_body-IsOwned buf count nonblock e = record {
      owner = λ u. ground (arith, o.owner u, holds-wake_writer (s.threads u));
      inside = λ u. ground (arith, o.inside u);
    }

    write_body-IsOwned :
        (buf count : ℕ) (nonblock : Bool)
        → s.mutex ≡ some t
        → IsOwned (write_body U t buf count nonblock s)
    unfolding holds write_body put_in
    write_body-IsOwned buf count nonblock e = record {
      owner = λ u. ground (arith, o.owner u, holds-wake_reader (s.threads u));
      inside = λ u. ground (arith, o.inside u);
    }

    -- A thread at the second lock of `hello_poll` goes on waiting for itself.
    go_on-p_again : (mask : ℕ) → s.mutex ≡ some t → go_on U t (p_again mask) s ≡ s
    unfolding go_on
    go_on-p_again mask e = ground arith

    go_on-IsOwned : (pc : Pc) → s.threads t ≡ pc → IsOwned (go_on U t pc s)
    unfolding go_on holds
    go_on-IsOwned (r_test buf count nonblock) e =
        read_body-IsOwned buf count nonblock (o.owner t (ap holds e))
    go_on-IsOwned (w_test buf count nonblock) e =
        write_body-IsOwned buf count nonblock (o.owner t (ap holds e))
    go_on-IsOwned (p_again mask) e = rw (go_on-p_again mask (o.owner t (ap holds e))) o
    go_on-IsOwned pc e = record {
      owner = λ u. ground (arith, o.owner u, o.owner t);
      inside = λ u. ground (arith, o.inside u, o.inside t);
    }

    interrupt-IsOwned : (pc : Pc) → s.threads t ≡ pc → IsOwned (interrupt U t pc s)
    unfolding interrupt holds
    interrupt-IsOwned idle e = o
    interrupt-IsOwned pc e = record {
      owner = λ u. ground (arith, o.owner u, o.owner t);
      inside = λ u. ground (arith, o.inside u, o.inside t);
    }

    lose-IsOwned : (pc : Pc) → s.threads t ≡ pc → IsOwned (lose_entry U t pc s)
    unfolding lose_entry holds
    lose-IsOwned (r_asleep buf count nonblock false) e = record {
      owner = λ u. ground (arith, o.owner u, o.owner t);
      inside = λ u. ground (arith, o.inside u, o.inside t);
    }
    lose-IsOwned pc e = o

    holds-begin : (req : Request) → holds (begin req) ≡ false
    unfolding holds begin
    holds-begin (ioctl cmd) = ground arith
    holds-begin req = refl

    enter-IsOwned : (req : Request) (pc : Pc) → s.threads t ≡ pc → IsOwned (enter U t req pc s)
    unfolding enter holds
    enter-IsOwned req idle e = record {
      owner = λ u. ground (arith, o.owner u, o.owner t, holds-begin req);
      inside = λ u. ground (arith, o.inside u, o.inside t, holds-begin req);
    }
    enter-IsOwned req (returned r) e = record {
      owner = λ u. ground (arith, o.owner u, o.owner t, holds-begin req);
      inside = λ u. ground (arith, o.inside u, o.inside t, holds-begin req);
    }
    enter-IsOwned req pc e = o

  step-IsOwned :
      (e : Event U.users.User) (s : System U.users.User) → IsOwned s → IsOwned (step U e s)
  unfolding step
  step-IsOwned (call t req) s o = enter-IsOwned t s o req (s.threads t) refl
  step-IsOwned (run t) s o = go_on-IsOwned t s o (s.threads t) refl
  step-IsOwned (signal t) s o = interrupt-IsOwned t s o (s.threads t) refl
  step-IsOwned (touch user) s o = record { owner = o.owner; inside = o.inside }
  step-IsOwned (lose t) s o = lose-IsOwned t s o (s.threads t) refl

  -- In any interleaving the mutex is held by exactly the thread that is between a lock and its
  -- unlock, so no two threads are inside the device at once.
  pub run_all-IsOwned :
      (es : List (Event U.users.User)) (s : System U.users.User)
      → IsOwned s
      → IsOwned (run_all U es s)
  unfolding run_all
  run_all-IsOwned [] s o = o
  run_all-IsOwned (e ∷ es) s o = run_all-IsOwned es _ (step-IsOwned e s o)

  -- Thread `t` waits at the second lock of `hello_poll`, with the mutex.
  pub record IsStuck (t mask len : ℕ) (s : System U.users.User) : Type 0 where
    pub waits : s.threads t ≡ p_again mask
    pub owned : IsOwned s
    pub frozen : s.current_len ≡ len

  module _ (t mask len : ℕ) (s : System U.users.User) (k : IsStuck t mask len s) where
    held : s.mutex ≡ some t
    unfolding holds
    held = k.owned.owner t (ap holds k.waits)

    -- no other thread is inside
    apart : (u : ℕ) (pc : Pc) → s.threads u ≡ pc → holds pc ≡ true → pc ≡ p_again mask
    apart u pc e h = ground (arith, ap holds e, k.owned.owner u, held, k.waits)

    abbrev Unmoved : System U.users.User → Type 0
    Unmoved s' = (s'.threads t ≡ p_again mask) × (s'.current_len ≡ len)

    go_on-Unmoved : (u : ℕ) (pc : Pc) → s.threads u ≡ pc → Unmoved (go_on U u pc s)
    unfolding go_on holds
    go_on-Unmoved u (r_test buf count nonblock) e = cc (apart u _ e refl)
    go_on-Unmoved u (w_test buf count nonblock) e = cc (apart u _ e refl)
    go_on-Unmoved u i_test e = cc (apart u _ e refl)
    go_on-Unmoved u pc e = (ground (arith, held, k.waits), ground (arith, held, k.frozen))

    interrupt-Unmoved : (u : ℕ) (pc : Pc) → s.threads u ≡ pc → Unmoved (interrupt U u pc s)
    unfolding interrupt
    interrupt-Unmoved u idle e = (k.waits, k.frozen)
    interrupt-Unmoved u pc e = (ground (arith, k.waits), ground (arith, k.frozen))

    lose-Unmoved : (u : ℕ) (pc : Pc) → s.threads u ≡ pc → Unmoved (lose_entry U u pc s)
    unfolding lose_entry
    lose-Unmoved u (r_asleep buf count nonblock false) e = (ground (arith, k.waits), k.frozen)
    lose-Unmoved u pc e = (k.waits, k.frozen)

    enter-Unmoved :
        (u : ℕ) (req : Request) (pc : Pc) → s.threads u ≡ pc → Unmoved (enter U u req pc s)
    unfolding enter
    enter-Unmoved u req idle e = (ground (arith, k.waits), k.frozen)
    enter-Unmoved u req (returned r) e = (ground (arith, k.waits), k.frozen)
    enter-Unmoved u req pc e = (k.waits, k.frozen)

  step-IsStuck :
      (t mask len : ℕ) (e : Event U.users.User) (s : System U.users.User)
      → IsStuck t mask len s
      → IsStuck t mask len (step U e s)
  unfolding step
  step-IsStuck t mask len e s k = record {
    waits = (unmoved e).0;
    owned = step-IsOwned e s k.owned;
    frozen = (unmoved e).1;
  }
    where
      unmoved :
          (e : Event U.users.User)
          → ((step U e s).threads t ≡ p_again mask) × ((step U e s).current_len ≡ len)
      unmoved (call u req) = enter-Unmoved t mask len s k u req (s.threads u) refl
      unmoved (run u) = go_on-Unmoved t mask len s k u (s.threads u) refl
      unmoved (signal u) = interrupt-Unmoved t mask len s k u (s.threads u) refl
      unmoved (touch user) = (k.waits, k.frozen)
      unmoved (lose u) = lose-Unmoved t mask len s k u (s.threads u) refl

  -- `hello_poll` ends with `mutex_lock` where it should unlock. Once a thread is there, whatever
  -- happens next, that thread never goes on, the mutex stays its own, and no byte enters or leaves
  -- the FIFO.
  pub run_all-IsStuck :
      (t mask len : ℕ) (es : List (Event U.users.User)) (s : System U.users.User)
      → IsStuck t mask len s
      → IsStuck t mask len (run_all U es s) × ((run_all U es s).mutex ≡ some t)
  unfolding run_all
  run_all-IsStuck t mask len [] s k = (k, held t mask len s k)
  run_all-IsStuck t mask len (e ∷ es) s k =
      run_all-IsStuck t mask len es _ (step-IsStuck t mask len e s k)
