-- ===== src/Ftrace/Tests.antt =====
-- A hook at address 100, with the module at 500 to 600 and its function at 510.
use learn_k.Base.{◌≡◌, refl, true, false, some, [], ◌∷◌, ◌==◌}
use learn_k.Base.Int.{pos, negsuc}
use learn_k.Ftrace.{
  Hook, Answers, Trace, callback, set_address, mounting, failed, dattobd_within_module,
  register_hook,
}
use learn_k.Ftrace.Registration.{IsIdle, IsHooked, Registered, register_hook_lem}
use learn_k.Ftrace.Redirect.{path_mount, path_mount-observed}

abbrev path_mount_hook : Hook
path_mount_hook = record {
  address = 0;
  original = 0;
  filter = λ _. false;
  registered = false;
  kprobes = 0;
}

abbrev idle : IsIdle path_mount_hook
idle = record { no_filter = λ _. refl; unregistered = refl; no_kprobe = refl }

abbrev hooked : Hook
hooked = record {
  address = 100;
  original = 100;
  filter = λ ip. ip == 100;
  registered = true;
  kprobes = 0;
}

abbrev is_hooked : IsHooked hooked
is_hooked = record { only = λ _. refl; registered = refl; saved = refl; no_kprobe = refl }

-- everything succeeds but `register_ftrace_function`
abbrev unregistrable : Answers
unregistrable = record {
  symbol = some 100;
  add_filter = pos 0;
  register = negsuc 15;
  remove_filter = pos 0;
  unregister = pos 0;
}

-- everything succeeds but `unregister_ftrace_function`
abbrev busy : Answers
busy = record {
  symbol = some 100;
  add_filter = pos 0;
  register = pos 0;
  remove_filter = pos 0;
  unregister = negsuc 15;
}

register_hook_lem_example : Registered (some 100) (register_hook unregistrable path_mount_hook)
register_hook_lem_example = register_hook_lem unregistrable path_mount_hook idle refl

abbrev quiet : Trace
quiet = record { buffers = 0; lines = []; mounts = 0 }

path_mount-observed_example :
    path_mount 500 100 510 520 true (negsuc 1) hooked 2 300 quiet
    ≡ some (
      negsuc 1,
      record {
        buffers = 0;
        lines = callback 100 ∷ set_address 510 ∷ mounting ∷ callback 100 ∷ failed (negsuc 1) ∷ [];
        mounts = 1;
      },
    )
unfolding dattobd_within_module
path_mount-observed_example =
    path_mount-observed 500 100 510 520 true (negsuc 1) hooked is_hooked refl refl refl 0 300 quiet
      refl
