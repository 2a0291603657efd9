-- ===== src/Kernel/Outcome.antt =====
-- Return codes, and commands over a state that holds a mutex.
use learn_k.Base.{ℕ, ◌≡◌}

-- the `-E…` codes that the modules return
pub data Errno : Type 0 where
  einval efault eagain erestartsys enomem eexist enoent eio : Errno

-- A handler's return value: a count or 0, or a negative code.
pub data Ret : Type 0 where
  val : ℕ → Ret
  err : Errno → Ret

-- A run ends with a value and a state, does not end (it waits for a mutex that it holds itself, or
-- loops on past its fuel), or
-- dereferences an invalid pointer.
pub data Run (S A : Type 0) : Type 0 where
  done : A → S → Run S A
  blocked : Run S A
  oops : Run S A

module _ {S A B : Type 0} where
  abbrev pub and_then : Run S A → (A → S → Run S B) → Run S B
  and_then (done a s) k = k a s
  and_then blocked k = blocked
  and_then oops k = oops

  infixl 5 ◌>>=◌ ◌>>◌
  abbrev pub ◌>>=◌ : (S → Run S A) → (A → S → Run S B) → S → Run S B
  m >>= k = λ s. and_then (m s) k

  abbrev pub ◌>>◌ : (S → Run S A) → (S → Run S B) → S → Run S B
  m >> k = λ s. and_then (m s) (λ _. k)

-- The run ends, with a value and a state that satisfy `P`.
abbrev pub Returns : {S A : Type 0} → (A → S → Type 0) → Run S A → Type 0
Returns P (done a s) = P a s
Returns P blocked = ⊥
Returns P oops = ⊥

-- What holds of the outcome of a run that is known to have ended.
pub Returns-done :
    {S A : Type 0} (P : A → S → Type 0) {m : Run S A} {a : A} {s : S}
    → m ≡ done a s
    → Returns P m
    → P a s
Returns-done P e h = rw e at h

-- A weaker postcondition.
pub Returns-mono :
    {S A : Type 0} (P Q : A → S → Type 0) (m : Run S A)
    → ((a : A) (s : S) → P a s → Q a s)
    → Returns P m
    → Returns Q m
Returns-mono P Q (done a s) f h = f a s h
Returns-mono P Q blocked f h = h
Returns-mono P Q oops f h = h

-- Sequencing.
pub Returns-bind :
    {S A B : Type 0} (P : A → S → Type 0) (Q : B → S → Type 0) (m : Run S A) (k : A → S → Run S B)
    → Returns P m
    → ((a : A) (s : S) → P a s → Returns Q (k a s))
    → Returns Q (and_then m k)
Returns-bind P Q (done a s) k h f = f a s h
Returns-bind P Q blocked k h f = h
Returns-bind P Q oops k h f = h

-- Two postconditions.
pub Returns-and :
    {S A : Type 0} (P Q : A → S → Type 0) (m : Run S A)
    → Returns P m
    → Returns Q m
    → Returns (λ a s. P a s × Q a s) m
Returns-and P Q (done a s) h k = (h, k)
Returns-and P Q blocked h k = h
Returns-and P Q oops h k = h
