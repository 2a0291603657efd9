-- ===== src/Netlink.antt =====
-- src/netlink/main.c: a netlink socket of the kernel that answers each message.
pub mod Replies
pub mod Client
mod Tests
use learn_k.Base.{
  ℕ, zero, suc, ◌+◌, ◌-◌, Bool, true, false, not, Option, none, some, List, [], ◌∷◌, ◌++◌, leb,
  ◌==◌, if◌then◌else◌,
}
use learn_k.Base.Int.{ℤ, pos, negsuc, ltb_ℤ}
use learn_k.Memory.{Bytes, slice, store_all}

-- How many references the module holds to received messages, the messages and the `struct
-- setup_param` that it has allocated, and what was delivered: to whom, and the data.
pub record State : Type 0 where
  pub references : ℕ
  pub messages : ℕ
  pub setups : ℕ
  pub sent : List (ℕ × List ℕ)

-- What the kernel answers: whether `nlmsg_new`, `nlmsg_put` and the `kmalloc` of `recv_cb` succeed,
-- and the result of `netlink_unicast`.
pub record Answers : Type 0 where
  pub nlmsg_new : Bool
  pub nlmsg_put : Bool
  pub kmalloc : Bool
  pub netlink_unicast : ℤ

-- The loop runs on fuel.
unfoldable pub stringlen : ℕ → Bytes → ℕ → Option ℕ
stringlen zero m buf = none
stringlen (suc fuel) m buf =
    let rest : Option ℕ = elim (stringlen fuel m (buf + 1)) [
      | none ↦ none
      | some len ↦ some (len + 1)
    ] in
    if m buf == 0 then some 0 else rest

abbrev pub alloc_message : State → State
alloc_message s = record s { messages = s.messages + 1 }

abbrev pub free_message : State → State
free_message s = record s { messages = s.messages - 1 }

-- `netlink_unicast` takes the message over in any case, and delivers it if its result is not
-- negative.
abbrev pub unicast : ℤ → ℕ → List ℕ → State → State
unicast ret pid bs s =
    let t = free_message s in
    if ltb_ℤ ret (pos 0) then t else record t { sent = t.sent ++ (pid, bs) ∷ [] }

unfoldable pub send_msg : Answers → ℕ → Bytes → ℕ → ℕ → State → Option (ℤ × State)
unfolding stringlen
send_msg a fuel m pbuf pid s = elim (stringlen fuel m pbuf) [
  | none ↦ none
  | some len ↦ some (
      if not a.nlmsg_new
      then (negsuc 0, s)
      else if not a.nlmsg_put
      then (negsuc 0, free_message (alloc_message s))
      else (a.netlink_unicast, unicast a.netlink_unicast pid (slice m pbuf len) (alloc_message s)))
]

-- "hello userspace"
abbrev pub hello : List ℕ
hello = 104 ∷ 101 ∷ 108 ∷ 108 ∷ 111 ∷ 32 ∷ 117 ∷ 115 ∷ 101 ∷ 114 ∷ 115 ∷ 112 ∷ 97 ∷ 99 ∷ 101 ∷ []

-- where the compiler puts it
unfoldable pub literal : Bytes
literal = store_all (λ _. 0) 0 hello

-- `skb_get` and `kfree_skb` around the answer; 16 is `NLMSG_SPACE(0)`, the size of the header. The
-- `setup` that it allocates is not used.
unfoldable pub recv_cb : Answers → (len nlmsg_pid : ℕ) → State → Option State
unfolding send_msg
recv_cb a len nlmsg_pid s =
    let held = record s { references = s.references + 1 } in
    let allocated = record held { setups = held.setups + (if a.kmalloc then 1 else 0) } in
    let answered : Option State = elim (send_msg a 16 literal 0 nlmsg_pid allocated) [
      | none ↦ none
      | some (ret, t) ↦ some (record t { references = t.references - 1 })
    ] in
    if leb 16 len then answered else some (record held { references = held.references - 1 })

-- Whether the socket is there afterwards; the flag says whether `netlink_kernel_create` succeeds.
unfoldable pub test_netlink_init : Bool → ℤ × Bool
test_netlink_init created = if created then (pos 0, true) else (negsuc 0, false)

unfoldable pub nl_bind : ℕ → ℤ
nl_bind group = pos 0

-- `netlink_kernel_release`
unfoldable pub test_netlink_exit : Bool → Bool
test_netlink_exit socket = false
