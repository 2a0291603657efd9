-- ===== src/Netlink/Client/Output.antt =====
-- What the program prints, and what it leaves.
use learn_k.Base.{
  ℕ, suc, ◌+◌, ◌<◌, ◌≡◌, ◌≢◌, refl, Bool, true, not, subst, sym, ◌&&◌, ap, some, List, [], ◌∷◌,
  ◌++◌, arith, if◌then◌else◌, length, get_or,
}
use mathlib.Core.List.{append_assoc, append-nil}
use learn_k.Base.Int.{pos, negsuc, ltb_ℤ}
use learn_k.Memory.{Bytes, store_all, memset, slice}
use learn_k.Memory.Laws.{slice-store_all}
use learn_k.Dump.{from_bytes}
use learn_k.Netlink.{hello}
use learn_k.Netlink.Replies.{Text, stringlen_lem, Message, reply}
use learn_k.Netlink.Client.{
  Line, no_socket, no_bind, send_start, no_send, recv_start, no_recv, recv_data, State, Answers,
  received_text, little_endian, nl_request, await_reply, main,
}

-- no byte is 0
abbrev pub NoneZero : List ℕ → Type 0
NoneZero [] = Unit
NoneZero (b ∷ bs) = (b ≢ 0) × NoneZero bs

Text-of_bytes :
    (m : Bytes) (p : ℕ) (bs : List ℕ)
    → NoneZero bs
    → ((i : ℕ) → i < length bs → m (p + i) ≡ get_or bs i 0)
    → m (p + length bs) ≡ 0
    → Text m p bs
Text-of_bytes m p [] ok h end = ground (arith, end)
Text-of_bytes m p (b ∷ bs) ok h end = (
  ground (arith, h 0),
  ok.0,
  Text-of_bytes m (p + 1) bs ok.1 (λ i l. ground (arith, h (suc i))) (ground (arith, end)),
)

-- Because the block is cleared before, the text ends where the data end.
pub received_text_lem :
    (a : Answers)
    → NoneZero a.received
    → length a.received < 1024
    → received_text a ≡ some a.received
unfolding received_text memset store_all
received_text_lem a ok h =
    let nlh = store_all (memset a.block 0 0 1040) 16 a.received in
    let t : Text nlh 16 a.received =
      Text-of_bytes nlh 16 a.received ok (λ i l. ground arith) (ground arith) in
    rw (received_text, stringlen_lem 1024 nlh 16 a.received t h)
      (ap some (slice-store_all (memset a.block 0 0 1040) 16 a.received))

-- The lines that the answers lead to.
abbrev pub output : Answers → List Line
output a =
    if not a.socket
    then no_socket ∷ []
    else if not a.bind
    then no_bind ∷ []
    else if ltb_ℤ a.sendto (pos 0)
    then send_start ∷ no_send ∷ []
    else if ltb_ℤ a.recvfrom (pos 0)
    then send_start ∷ recv_start ∷ no_recv ∷ []
    else send_start ∷ recv_start ∷ recv_data a.received ∷ []

abbrev pub succeeds : Answers → Bool
succeeds a = a.socket && a.bind && not (ltb_ℤ a.sendto (pos 0)) && not (ltb_ℤ a.recvfrom (pos 0))

-- how many blocks stay allocated
abbrev pub left : Answers → ℕ
left a = if not (a.socket && a.bind) then 2 else if succeeds a then 1 else 3

abbrev pub requests : Answers → List (List ℕ)
requests a =
    if a.socket && a.bind && not (ltb_ℤ a.sendto (pos 0))
    then slice (nl_request a) 0 1040 ∷ []
    else []

pub main_lem :
    (a : Answers) (s : State)
    → NoneZero a.received
    → length a.received < 1024
    → main a s
      ≡ some (
        (if succeeds a then pos 0 else negsuc 0),
        record s {
          blocks = s.blocks + left a;
          sent = s.sent ++ requests a;
          lines = s.lines ++ output a;
        },
      )
unfolding main await_reply
main_lem a s ok h =
    let e = received_text_lem a ok h in
    let join = append_assoc s.lines (send_start ∷ []) in
    let join2 = append_assoc s.lines (send_start ∷ recv_start ∷ []) in
    ground (
      arith,
      e,
      join (no_send ∷ []),
      join (recv_start ∷ []),
      join2 (no_recv ∷ []),
      join2 (recv_data a.received ∷ []),
      append-nil s.sent,
    )

-- Where the data received are what the module answers to a message of process 50, the program greets
-- the user with "hello userspace".
pub main-reply :
    (a : Answers) (s : State) (x : Message)
    → succeeds a ≡ true
    → reply x ≡ (50, a.received) ∷ []
    → main a s
      ≡ some (
        pos 0,
        record s {
          blocks = s.blocks + 1;
          sent = s.sent ++ slice (nl_request a) 0 1040 ∷ [];
          lines = s.lines ++ send_start ∷ recv_start ∷ recv_data hello ∷ [];
        },
      )
main-reply a s x fine e =
    let same : a.received ≡ hello = ground (arith, e) in
    let ok : NoneZero a.received = subst NoneZero (sym same) (ground arith) in
    let h : length a.received < 1024 = rw same (omega arith) in
    ground (arith, main_lem a s ok h, same, fine)

-- The module reads the process back from the header.
pub nl_request-pid :
    (a : Answers)
    → (from_bytes (λ i. nl_request a (12 + i)) ≡ 50) × (from_bytes (nl_request a) ≡ 1040)
unfolding nl_request store_all little_endian
nl_request-pid a = (refl, refl)
