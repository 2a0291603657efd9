-- ===== src/Ftrace/Registration.antt =====
-- `register_hook` and `unregister_hook` together.
use learn_k.Base.{
  Option, some, ℕ, ◌≡◌, refl, true, false, arith, ◌==◌, if◌then◌else◌, inl, inr, Bool-cases,
  Option-cases,
}
use learn_k.Base.Int.{ℤ}
use learn_k.Ftrace.{
  Hook, Answers, ok, lookup_name, resolve_hook_address, set_filter_ip, register_hook,
  unregister_hook,
}

-- The kernel holds nothing for the hook.
pub record IsIdle (h : Hook) : Type 0 where
  pub no_filter : (ip : ℕ) → h.filter ip ≡ false
  pub unregistered : h.registered ≡ false
  pub no_kprobe : h.kprobes ≡ 0

-- The hook is registered for its address alone.
pub record IsHooked (h : Hook) : Type 0 where
  pub only : (ip : ℕ) → h.filter ip ≡ (ip == h.address)
  pub registered : h.registered ≡ true
  pub saved : h.original ≡ h.address
  pub no_kprobe : h.kprobes ≡ 0

-- After success the hook's address is where the kernel finds the symbol.
abbrev pub Registered : Option ℕ → ℤ × Hook → Type 0
Registered symbol out =
    if ok out.0 then IsHooked out.1 × (symbol ≡ some out.1.address) else IsIdle out.1

-- Other addresses in the hook's own fields.
IsIdle-resolved : (h : Hook) (a o : ℕ) → IsIdle h → IsIdle (record h { address = a; original = o })
IsIdle-resolved h a o idle = record {
  no_filter = idle.no_filter;
  unregistered = idle.unregistered;
  no_kprobe = idle.no_kprobe;
}

-- The address added to the filter, and the function registered.
added :
    (h : Hook) (a : ℕ)
    → IsIdle h
    → IsHooked (record h {
      address = a;
      original = a;
      filter = λ ip. if ip == a then true else h.filter ip;
      registered = true;
    })
added h a idle = record {
  only = λ ip. ground (arith, idle.no_filter ip);
  registered = refl;
  saved = refl;
  no_kprobe = idle.no_kprobe;
}

-- The address added to the filter, and removed again.
undone :
    (h : Hook) (a : ℕ)
    → IsIdle h
    → IsIdle (record h {
      address = a;
      original = a;
      filter = λ ip. if ip == a then false else if ip == a then true else h.filter ip;
    })
undone h a idle = record {
  no_filter = λ ip. ground (arith, idle.no_filter ip);
  unregistered = idle.unregistered;
  no_kprobe = idle.no_kprobe;
}

-- `register_hook` is all or nothing: it returns 0 with the hook registered for the address of the
-- symbol, or an error with nothing left in the kernel, if a filter that was added can be removed.
pub register_hook_lem :
    (a : Answers) (h : Hook)
    → IsIdle h
    → ok a.remove_filter ≡ true
    → Registered a.symbol (register_hook a h)
unfolding register_hook resolve_hook_address lookup_name set_filter_ip
register_hook_lem a h idle removes = elim (Option-cases a.symbol) [
  | inl e ↦ rw e (IsIdle-resolved h _ _ idle)
  | inr (addr, e) ↦ rw e (elim (Bool-cases (addr == 0)) [
    | inl z ↦ rw z (IsIdle-resolved h _ _ idle)
    | inr nz ↦ rw nz (elim (Bool-cases (ok a.add_filter)) [
      | inl f ↦ rw f (elim (Bool-cases (ok a.register)) [
        | inl r ↦ rw (r, r) (added h addr idle, refl)
        | inr r ↦ rw (r, r, removes) (undone h addr idle)
      ])
      | inr f ↦ rw (f, f) (IsIdle-resolved h _ _ idle)
    ])
  ])
]

-- After a registration that succeeded, `unregister_hook` leaves nothing in the kernel, if both of
-- its steps succeed.
pub unregister_hook-register_hook :
    (a : Answers) (h : Hook)
    → IsHooked h
    → ok a.unregister ≡ true
    → ok a.remove_filter ≡ true
    → ((unregister_hook a h).0 ≡ a.remove_filter) × IsIdle (unregister_hook a h).1
unfolding unregister_hook set_filter_ip
unregister_hook-register_hook a h is u r =
    rw (u, r)
      (
        refl,
        record {
          no_filter = λ ip. ground (arith, is.only ip);
          unregistered = refl;
          no_kprobe = is.no_kprobe;
        },
      )

-- If the function cannot be unregistered but the filter can be removed, `unregister_hook` returns
-- 0 while the function stays registered.
pub unregister_hook-masks :
    (a : Answers) (h : Hook)
    → h.registered ≡ true
    → ok a.unregister ≡ false
    → ok a.remove_filter ≡ true
    → (ok (unregister_hook a h).0 ≡ true) × ((unregister_hook a h).1.registered ≡ true)
unfolding unregister_hook set_filter_ip
unregister_hook-masks a h is u r = ground arith
