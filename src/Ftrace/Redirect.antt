-- ===== src/Ftrace/Redirect.antt =====
-- A call of `path_mount` while the hook is registered.
use learn_k.Base.{
  List, not, ℕ, zero, suc, ◌+◌, ◌≡◌, refl, ◌∙◌, Bool, true, false, ◌&&◌, Option, none, some, [],
  ◌∷◌, ◌++◌, arith, ◌==◌, ==_iff, if◌then◌else◌, Bool-cases, inl, inr,
}
use mathlib.Core.List.{append_assoc}
use learn_k.Base.Int.{ℤ}
use learn_k.Ftrace.{
  Hook, Trace, Line, callback, set_address, print, mounting, failed, ok, enomem,
  dattobd_within_module, ftrace_callback_handler, ftrace_path_mount,
}
use learn_k.Ftrace.Registration.{IsHooked}

-- The module's code is at `base`, with the hook's function and the place from where that calls
-- `path_mount` in it. `body` is what the kernel's own function answers.
module _ (base size function call_site : ℕ) (allocated : Bool) (body : ℤ) where
  -- A call of `path_mount` from `parent`: the callback decides where it goes. The hook's function
  -- calls it again, so the calls are bounded by fuel.
  unfoldable pub path_mount : Hook → ℕ → ℕ → Trace → Option (ℤ × Trace)
  path_mount h zero parent t = none
  path_mount h (suc fuel) parent t =
      let (ip, t') =
        if h.registered && h.filter h.address
        then ftrace_callback_handler base size function parent h.address t
        else (h.address, t) in
      if ip == function
      then ftrace_path_mount allocated (path_mount h fuel call_site) t'
      else some (body, record t' { mounts = t'.mounts + 1 })

  -- What is printed of a mount from elsewhere, where the function is at `address`: the hook calls the
  -- function again, and the callback prints that too.
  abbrev pub reported : ℕ → List Line
  reported address =
      let redirected = callback address ∷ set_address function ∷ [] in
      let tried = redirected ++ mounting ∷ callback address ∷ [] in
      if not allocated then redirected else if ok body then tried else tried ++ failed body ∷ []

  -- What such a mount does, when the hook's buffer could be allocated or not.
  abbrev pub observed : ℕ → Trace → ℤ × Trace
  observed address t =
      let printed = record t { lines = t.lines ++ reported address } in
      if allocated then (body, record printed { mounts = t.mounts + 1 }) else (enomem, printed)

  module _ (h : Hook) (is : IsHooked h)
      (in_module : dattobd_within_module base size function ≡ true)
      (calls : dattobd_within_module base size call_site ≡ true)
      (target : dattobd_within_module base size h.address ≡ false) where
    -- The function that is hooked is not the hook.
    other : (h.address == function) ≡ false
    other = elim (Bool-cases (h.address == function)) [
      | inl e ↦ ground (arith, (==_iff h.address function).0 e)
      | inr e ↦ e
    ]

    redirects : (h.registered && h.filter h.address) ≡ true
    redirects = rw (is.registered) (is.only h.address ∙ (==_iff h.address h.address).1 refl)

    -- A call from within the module is not redirected.
    path_mount-inside :
        (fuel parent : ℕ) (t : Trace)
        → dattobd_within_module base size parent ≡ true
        → path_mount h (suc fuel) parent t
          ≡ some
              (body, record t { lines = t.lines ++ callback h.address ∷ []; mounts = t.mounts + 1 })
    unfolding path_mount ftrace_callback_handler
    path_mount-inside fuel parent t inside = rw (redirects, inside, other) refl

    -- A call from outside runs the hook.
    path_mount-outside :
        (fuel parent : ℕ) (t : Trace)
        → dattobd_within_module base size parent ≡ false
        → path_mount h (suc fuel) parent t
          ≡ ftrace_path_mount allocated
              (path_mount h fuel call_site)
              (print (set_address function) (print (callback h.address) t))
    unfolding path_mount ftrace_callback_handler
    path_mount-outside fuel parent t outside =
        rw (redirects, outside, (==_iff function function).1 refl) refl

    -- While the hook is registered, a call of `path_mount` from outside the module ends. If the
    -- hook's buffer is allocated, the kernel's own function has run exactly once, its result is the
    -- call's, and no buffer is left: a line of the callback and one of the hook's address are
    -- printed, the hook's own line, the callback's for the hook's call of the function, and one more
    -- if the mount failed. If not, nothing is mounted, the result is `-ENOMEM`, and only the first two
    -- lines are printed.
    pub path_mount-observed :
        (fuel parent : ℕ) (t : Trace)
        → dattobd_within_module base size parent ≡ false
        → path_mount h (suc (suc fuel)) parent t ≡ some (observed h.address t)
    unfolding ftrace_path_mount
    path_mount-observed fuel parent t outside =
        path_mount-outside (suc fuel) parent t outside
        ∙ rw (path_mount-inside fuel call_site _ calls) (
            ground (
              arith,
              join (callback a ∷ []) (set_address function ∷ []),
              join (callback a ∷ set_address function ∷ []) (mounting ∷ []),
              join (callback a ∷ set_address function ∷ mounting ∷ []) (callback a ∷ []),
              join (callback a ∷ set_address function ∷ mounting ∷ callback a ∷ [])
                  (failed body ∷ []),
            ))
      where
        a : ℕ
        a = h.address

        join : (xs ys : List Line) → (t.lines ++ xs) ++ ys ≡ t.lines ++ (xs ++ ys)
        join = append_assoc t.lines
