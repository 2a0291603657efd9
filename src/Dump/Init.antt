-- ===== src/Dump/Init.antt =====
-- `__do_init` of src/dump/main.c, and what it leaves behind.
use learn_k.Base.{
  ℕ, ◌+◌, ◌-◌, ◌<◌, ◌≡◌, refl, Bool, true, Option, none, some, List, [], ◌∷◌, ◌++◌, ap, arith,
  if◌then◌else◌,
}
use learn_k.Memory.{Bytes, store_all}
use learn_k.Kernel.{Ret, err, einval, enomem, Run, done, blocked, oops}
use learn_k.Dump.{Params, Result, ok, failed, to_bytes, from_bytes, marshal, unmarshal}
use learn_k.Strings.Join.{Text}
use learn_k.Dump.RoundTrip.{unmarshal-marshal}

-- Which allocations succeed: `p`, its name, the buffer, `target` and the name of that.
pub record Answers : Type 0 where
  pub params : Bool
  pub name : Bool
  pub buffer : Bool
  pub target : Bool
  pub copy : Bool

-- the number 1 and "hello world1"
abbrev pub hello : Params
hello = record {
  id = 1;
  name = 104 ∷ 101 ∷ 108 ∷ 108 ∷ 111 ∷ 32 ∷ 119 ∷ 111 ∷ 114 ∷ 108 ∷ 100 ∷ 49 ∷ [];
}

-- what is logged: the number, and the name or a null pointer
abbrev pub shown : Bytes → Result → ℕ × Option (List ℕ)
shown m (ok q) = (q.id, some q.name)
shown m failed = (from_bytes m, none)

-- how many blocks there are once `p` is freed: its name, the buffer, `target` and its name are left
abbrev pub left : Bool → ℕ → ℕ
left copy blocks = blocks + (if copy then 5 else 4) - 1

-- The state is the number of blocks; the result has what is logged, if anything.
unfoldable pub do_init : ℕ → Answers → Bytes → ℕ → Run ℕ (Option (ℕ × Option (List ℕ)) × Ret)
do_init fuel a garbage blocks =
    if a.params
    then (if a.name
        then elim (marshal a.buffer garbage hello) [
          | none ↦ done (none, err enomem) (blocks + 2 - 2)
          | some m ↦
              if a.target
              then elim (unmarshal fuel a.copy m.bytes) [
                | none ↦ blocked
                | some r ↦ done (some (shown m.bytes r), err einval) (left a.copy blocks)
              ]
              else oops
        ]
        else oops)
    else oops

abbrev pub all_there : Answers
all_there = record { params = true; name = true; buffer = true; target = true; copy = true }

Text-hello : Text hello.name
Text-hello i h = ground (arith, h)

module _ (garbage : Bytes) where
  abbrev packed : Bytes
  packed = store_all (store_all garbage 0 (to_bytes 1)) 4 (hello.name ++ (0 ∷ []))

  marshal-hello : marshal true garbage hello ≡ some (record { bytes = packed; size = 17 })
  unfolding marshal
  marshal-hello = refl

  unmarshal-hello : (fuel : ℕ) → 12 < fuel → unmarshal fuel true packed ≡ some (ok hello)
  unfolding marshal
  unmarshal-hello fuel enough =
      (unmarshal-marshal garbage hello (omega arith) Text-hello fuel enough (omega arith)).0

  -- Where there is memory, `__do_init` logs the number and the name as they were before they were
  -- packed, and fails with -EINVAL; four blocks are never freed.
  pub do_init-leaks :
      (fuel blocks : ℕ)
      → 12 < fuel
      → do_init fuel all_there garbage blocks
        ≡ done (some (1, some hello.name), err einval) (blocks + 4)
  unfolding do_init
  do_init-leaks fuel blocks enough =
      rw (do_init, marshal-hello, unmarshal-hello fuel enough)
        (ap (λ n. done (some (1, some hello.name), err einval) n) (omega arith))
