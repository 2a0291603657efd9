-- ===== src/Hook/Unload.antt =====
-- `hook_init` and `hook_exit` of src/hook/khook.c.
use learn_k.Base.{ℕ, ◌<◌, ◌≡◌, refl, ap, ◌∙◌, Bool, true, false, some, [], length, if◌then◌else◌}
use learn_k.Kernel.{einval, Ret, val, err, Run, done, blocked, oops, Returns, Returns-bind}
use learn_k.Container.Links.{Ptr}
use learn_k.Rbtree.Keys.{nat_order}
use learn_k.Rbtree.{RbApi, entries, clear}
use learn_k.Rbtree.Laws.{clear_lem}
use learn_k.Hook.Pool.{MountParams, State, on_root, probe_pool_init, probe_pool_clear}
use learn_k.Hook.Session.{Map, IsPool, Returns-on_root}

-- The module's memory and its registration; `probe_pool` says whether the pool is allocated.
pub record Module : Type 0 where
  pub state : State
  pub probe_pool : Bool
  pub registered : Bool

-- The flags say whether `kmalloc` succeeds, which is not tested, and whether `register_kretprobe`
-- returns 0.
unfoldable pub hook_init : Bool → Bool → Module → Run Module Ret
hook_init allocated registers m =
    if allocated
    then (if registers
        then done (val 0)
            (record { state = probe_pool_init m.state; probe_pool = true; registered = true })
        else done (err einval)
            (record { state = probe_pool_init m.state; probe_pool = true; registered = false }))
    else oops

-- `kfree(probe_pool)`
abbrev pub unload : Run State (Unit {0}) → Run Module (Unit {0})
unload (done _ s) = done tt (record { state = s; probe_pool = false; registered = false })
unload blocked = blocked
unload oops = oops

-- The entries are freed, the parameters in `waiting` are not.
pub record Unloaded (waiting : Map) (m : Module) : Type 0 where
  pub registered : m.registered ≡ false
  pub pool_freed : m.probe_pool ≡ false
  pub entries_freed : (a : Ptr) → m.state.pool.live a ≡ false
  pub params_kept : (k : ℕ) (p : MountParams) → waiting k ≡ some p → m.state.params p.addr ≡ true

module _ (B : RbApi ℕ MountParams) where
  unfoldable pub hook_exit : ℕ → Module → Run Module (Unit {0})
  hook_exit fuel m = unload (probe_pool_clear B fuel m.state)

  cleared :
      (fuel : ℕ) (s : State) (m : Map)
      → IsPool s m
      → length (entries s.pool.root) < fuel
      → Returns
          (λ _ s'.
            (entries s'.pool.root ≡ [])
            × ((a : Ptr) → s'.pool.live a ≡ false)
            × (s'.params ≡ s.params))
          (probe_pool_clear B fuel s)
  unfolding probe_pool_clear
  cleared fuel s m is f = rw (is.free) (
      Returns-bind
        (λ _ t.
          ((entries t.pool.root ≡ []) × ((a : Ptr) → t.pool.live a ≡ false))
          × (t ≡ record s { pool = t.pool; locked = true }))
        _ (on_root (clear B fuel) (record s { locked = true })) _
        (Returns-on_root (λ _ t. (entries t.root ≡ []) × ((a : Ptr) → t.live a ≡ false))
          (clear B fuel) (record s { locked = true })
          (clear_lem B (entries s.pool.root) fuel s.pool refl is.maps.apart is.maps.owns f))
        λ _ t h. (h.0.0, h.0.1, ap State.params h.1))

  unload-Unloaded :
      (s : State) (waiting : Map)
      → IsPool s waiting
      → (r : Run State (Unit {0}))
      → Returns
          (λ _ t.
            (entries t.pool.root ≡ [])
            × ((a : Ptr) → t.pool.live a ≡ false)
            × (t.params ≡ s.params))
          r
      → Returns (λ _ m. Unloaded waiting m) (unload r)
  unload-Unloaded s waiting is (done _ t) h = record {
    registered = refl;
    pool_freed = refl;
    entries_freed = h.1;
    params_kept = λ k p e. ap (λ f. f p.addr) h.2 ∙ is.live k p e;
  }
  unload-Unloaded s waiting is blocked h = h
  unload-Unloaded s waiting is oops h = h

  -- `hook_exit` ends, with every entry of the tree freed, but frees none of the parameters that wait
  -- for the return of a call.
  pub hook_exit_lem :
      (fuel : ℕ) (m : Module) (waiting : Map)
      → IsPool m.state waiting
      → length (entries m.state.pool.root) < fuel
      → Returns (λ _ m'. Unloaded waiting m') (hook_exit fuel m)
  unfolding hook_exit
  hook_exit_lem fuel m waiting is f =
      unload-Unloaded m.state waiting is (probe_pool_clear B fuel m.state)
        (cleared fuel m.state waiting is f)
