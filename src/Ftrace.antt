-- ===== src/Ftrace.antt =====
-- src/ftrace/main.c: a hook on `path_mount`, by ftrace. What the kernel's functions answer is a
-- parameter.
pub mod Registration
pub mod Redirect
mod Tests
use learn_k.Base.{
  ℕ, zero, suc, ◌+◌, Bool, true, false, not, ◌&&◌, Option, none, some, List, [], ◌∷◌, ◌++◌, ◌-◌,
  ltb, leb, ◌==◌, if◌then◌else◌,
}
use mathlib.Core.Option.{map as option_map}
use learn_k.Base.Int.{ℤ, pos, negsuc}

-- `struct ftrace_hook` with what the kernel holds for it: the addresses that its filter lets
-- through, whether its function is registered, and how many kprobes are.
pub record Hook : Type 0 where
  pub address : ℕ
  pub original : ℕ
  pub filter : ℕ → Bool
  pub registered : Bool
  pub kprobes : ℕ

-- What the kernel answers: where `register_kprobe` finds the symbol, if it does, and what the other
-- functions return, `ftrace_set_filter_ip` to add an address and to remove one.
pub record Answers : Type 0 where
  pub symbol : Option ℕ
  pub add_filter : ℤ
  pub register : ℤ
  pub remove_filter : ℤ
  pub unregister : ℤ

-- `ret == 0`
abbrev pub ok : ℤ → Bool
ok (pos n) = n == 0
ok (negsuc n) = false

-- `-ENOENT`, `-EINVAL` and `-ENOMEM`
abbrev pub enoent : ℤ
enoent = negsuc 1

abbrev pub einval : ℤ
einval = negsuc 21

abbrev pub enomem : ℤ
enomem = negsuc 11

-- The kprobe is registered to read its address, and unregistered.
unfoldable pub lookup_name : Answers → Hook → ℕ × Hook
lookup_name a h = elim a.symbol [
  | none ↦ (0, h)
  | some addr ↦
      let probed = record h { kprobes = h.kprobes + 1 } in
      (addr, record probed { kprobes = h.kprobes })
]

unfoldable pub resolve_hook_address : Answers → Hook → ℤ × Hook
unfolding lookup_name
resolve_hook_address a h =
    let (addr, h') = lookup_name a h in
    if addr == 0
    then (enoent, record h' { address = 0 })
    else (pos 0, record h' { address = addr; original = addr })

-- `ftrace_set_filter_ip(&hook->ops, hook->address, remove, 0)`; a failure changes nothing.
unfoldable pub set_filter_ip : ℤ → Bool → Hook → Hook
set_filter_ip answer remove h =
    if ok answer
    then record h { filter = λ ip. if ip == h.address then not remove else h.filter ip }
    else h

unfoldable pub register_hook : Answers → Hook → ℤ × Hook
unfolding resolve_hook_address set_filter_ip
register_hook a h =
    let (ret, h₁) = resolve_hook_address a h in
    if not (ok ret)
    then (ret, h₁)
    else if not (ok a.add_filter)
    then (a.add_filter, h₁)
    else if not (ok a.register)
    then (a.register, set_filter_ip a.remove_filter true (set_filter_ip a.add_filter false h₁))
    else (a.register, record (set_filter_ip a.add_filter false h₁) { registered = true })

-- The first result is printed and overwritten by the second.
unfoldable pub unregister_hook : Answers → Hook → ℤ × Hook
unfolding set_filter_ip
unregister_hook a h =
    let h₁ = if ok a.unregister then record h { registered = false } else h in
    (a.remove_filter, set_filter_ip a.remove_filter true h₁)

unfoldable pub ftrace_init : Answers → Hook → ℤ × Hook
unfolding register_hook
ftrace_init a h = let (ret, h') = register_hook a h in if ok ret then (pos 0, h') else (einval, h')

unfoldable pub ftrace_exit : Answers → Hook → Hook
unfolding unregister_hook
ftrace_exit a h = (unregister_hook a h).1

-- `within_module(addr, THIS_MODULE)`, for the module's code at `base`
unfoldable pub dattobd_within_module : (base size : ℕ) → ℕ → Bool
dattobd_within_module base size addr = leb base addr && ltb addr (base + size)

-- What the callback prints, the function's address and that of the hook, and what the hook prints
-- of a mount: the line before it, and the line if it failed.
pub data Line : Type 0 where
  callback set_address : ℕ → Line
  mounting : Line
  failed : ℤ → Line

-- What a call of `path_mount` changes: the buffers that are allocated, the lines printed, and how
-- often the kernel's own function has run.
pub record Trace : Type 0 where
  pub buffers : ℕ
  pub lines : List Line
  pub mounts : ℕ

abbrev pub print : Line → Trace → Trace
print l t = record t { lines = t.lines ++ l ∷ [] }

-- What `regs->ip` is afterwards.
unfoldable pub ftrace_callback_handler :
    (base size function : ℕ) → (parent_ip ip : ℕ) → Trace → ℕ × Trace
unfolding dattobd_within_module
ftrace_callback_handler base size function parent_ip ip t =
    let called = print (callback ip) t in
    if dattobd_within_module base size parent_ip
    then (ip, called)
    else (function, print (set_address function) called)

-- The end of the hook, with the result of the function that it calls.
abbrev pub mounted : ℤ × Trace → ℤ × Trace
mounted (ret, t) =
    let t' = if ok ret then t else print (failed ret) t in
    (ret, record t' { buffers = t'.buffers - 1 })

-- `orig` is the call of `orig_path_mount`, which may not return.
unfoldable pub ftrace_path_mount : Bool → (Trace → Option (ℤ × Trace)) → Trace → Option (ℤ × Trace)
ftrace_path_mount allocated orig t =
    if not allocated
    then some (enomem, t)
    else let t₁ = print mounting (record t { buffers = t.buffers + 1 }) in
      option_map mounted (orig t₁)
