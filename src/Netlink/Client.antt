-- ===== src/Netlink/Client.antt =====
-- src/netlink/netlink.c: the program of the user that sends one message to the module and prints the
-- answer.
pub mod Output
use learn_k.Base.{
  ℕ, zero, suc, ◌+◌, ◌-◌, ◌/◌, ◌%◌, Bool, not, Option, none, some, List, [], ◌∷◌, ◌++◌,
  if◌then◌else◌,
}
use learn_k.Base.Int.{ℤ, pos, negsuc, ltb_ℤ}
use learn_k.Memory.{Bytes, store_all, memset, slice}
use learn_k.Netlink.{stringlen}

pub data Line : Type 0 where
  no_socket no_bind send_start no_send recv_start no_recv : Line
  recv_data : List ℕ → Line

-- The sockets that are open, the blocks that are allocated, the messages sent, and the output.
pub record State : Type 0 where
  pub sockets : ℕ
  pub blocks : ℕ
  pub sent : List (List ℕ)
  pub lines : List Line

-- What the system answers: whether `socket` and `bind` succeed, the results of `sendto` and
-- `recvfrom`, and the data of the message that is received; the address of `setup`, and what stands
-- in the block that `malloc` gives for the message. `malloc` succeeds, as the code takes for granted.
pub record Answers : Type 0 where
  pub socket : Bool
  pub bind : Bool
  pub sendto : ℤ
  pub recvfrom : ℤ
  pub received : List ℕ
  pub setup : ℕ
  pub block : Bytes

abbrev pub printf : Line → State → State
printf l s = record s { lines = s.lines ++ l ∷ [] }

abbrev pub close : State → State
close s = record s { sockets = s.sockets - 1 }

-- the bytes of a number in memory, the lowest first
unfoldable pub little_endian : ℕ → ℕ → List ℕ
little_endian zero v = []
little_endian (suc n) v = v % 256 ∷ little_endian n (v / 256)

-- The message: `nlmsg_len` is `NLMSG_SPACE(MAX_PLOAD)`, `nlmsg_pid` is that of `local`, the other
-- fields are 0; then comes the pointer in `data`.
unfoldable pub nl_request : Answers → Bytes
unfolding little_endian
nl_request a =
    let cleared = memset a.block 0 0 16 in
    let header = store_all (store_all cleared 0 (little_endian 4 1040)) 12 (little_endian 4 50) in
    store_all header 16 (little_endian 8 a.setup)

-- The block is cleared, and the data put behind the header, which is not read any more. The result
-- is what `%s` prints, if a 0 ends it within the block.
unfoldable pub received_text : Answers → Option (List ℕ)
received_text a =
    let nlh = store_all (memset a.block 0 0 1040) 16 a.received in
    elim (stringlen 1024 nlh 16) [ none ↦ none | some len ↦ some (slice nlh 16 len) ]

-- From `recvfrom` on.
unfoldable pub await_reply : Answers → State → Option (ℤ × State)
unfolding received_text
await_reply a s =
    if ltb_ℤ a.recvfrom (pos 0)
    then some (negsuc 0, close (printf no_recv s))
    else elim (received_text a) [
      | none ↦ none
      | some bs ↦
          let freed = record (printf (recv_data bs) s) { blocks = s.blocks - 1 } in
          let closed = close freed in some (pos 0, record closed { blocks = closed.blocks - 1 })
    ]

-- `exit` ends the program like `return`.
unfoldable pub main : Answers → State → Option (ℤ × State)
unfolding await_reply
main a s =
    let start = record s { blocks = s.blocks + 2 } in
    let opened = record start { sockets = start.sockets + 1 } in
    let started = printf send_start (record opened { blocks = opened.blocks + 1 }) in
    let sent = record started { sent = started.sent ++ slice (nl_request a) 0 1040 ∷ [] } in
    let received = await_reply a (printf recv_start sent) in
    if not a.socket
    then some (negsuc 0, printf no_socket start)
    else if not a.bind
    then some (negsuc 0, close (printf no_bind opened))
    else if ltb_ℤ a.sendto (pos 0)
    then some (negsuc 0, close (printf no_send started))
    else received
