-- ===== src/Netlink/Replies.antt =====
-- What is answered to the messages that come in.
use learn_k.Base.{
  ℕ, zero, suc, ◌+◌, ◌<◌, ◌≡◌, ◌≢◌, refl, not, ◌&&◌, Option, none, some, List, [], ◌∷◌, ◌++◌, arith,
  leb, if◌then◌else◌, length,
}
use mathlib.Core.List.{append_assoc, append-nil}
use learn_k.Base.Int.{pos, ltb_ℤ}
use learn_k.Memory.{Bytes, slice, store_all}
use learn_k.Netlink.{State, Answers, stringlen, send_msg, hello, literal, recv_cb}

-- `bs` and a terminator stand at `p`.
abbrev pub Text : Bytes → ℕ → List ℕ → Type 0
Text m p [] = m p ≡ 0
Text m p (b ∷ bs) = (m p ≡ b) × (b ≢ 0) × Text m (p + 1) bs

pub stringlen_lem :
    (fuel : ℕ) (m : Bytes) (p : ℕ) (bs : List ℕ)
    → Text m p bs
    → length bs < fuel
    → stringlen fuel m p ≡ some (length bs)
unfolding stringlen
stringlen_lem zero m p bs t f = absurd (omega arith)
stringlen_lem (suc fuel) m p [] t f = ground arith
stringlen_lem (suc fuel) m p (b ∷ bs) t f = ground (arith, stringlen_lem fuel m (p + 1) bs t.2)

-- A message that comes in: what the kernel answers, its length, and its sender.
pub record Message : Type 0 where
  pub answers : Answers
  pub len : ℕ
  pub nlmsg_pid : ℕ

unfoldable pub recv_all : List Message → State → Option State
recv_all [] s = some s
recv_all (x ∷ xs) s = elim (recv_cb x.answers x.len x.nlmsg_pid s) [
  | none ↦ none
  | some t ↦ recv_all xs t
]

-- the greeting to the sender, if there is a header and the kernel lets it through
abbrev pub reply : Message → List (ℕ × List ℕ)
reply x =
    if leb 16 x.len
      && x.answers.nlmsg_new
      && x.answers.nlmsg_put
      && not (ltb_ℤ x.answers.netlink_unicast (pos 0))
    then (x.nlmsg_pid, hello) ∷ []
    else []

abbrev pub replies : List Message → List (ℕ × List ℕ)
replies [] = []
replies (x ∷ xs) = reply x ++ replies xs

abbrev pub setup : Message → ℕ
setup x = if leb 16 x.len && x.answers.kmalloc then 1 else 0

abbrev pub setups : List Message → ℕ
setups [] = 0
setups (x ∷ xs) = setup x + setups xs

literal_length : stringlen 16 literal 0 ≡ some 15
unfolding stringlen literal store_all
literal_length = refl

literal_bytes : slice literal 0 15 ≡ hello
unfolding literal slice store_all
literal_bytes = refl

recv_cb_lem :
    (x : Message) (s : State)
    → recv_cb x.answers x.len x.nlmsg_pid s
      ≡ some (record s { setups = s.setups + setup x; sent = s.sent ++ reply x })
unfolding recv_cb send_msg
recv_cb_lem x s = rw (literal_length, literal_bytes) (ground (arith, append-nil s.sent))

-- `recv_cb` never fails to end. Each message with a header is answered once, by "hello userspace"
-- to its sender, in the order in which they came, if the kernel has memory and delivers it; nobody
-- else is sent anything. All references and messages are given back, but one `struct setup_param` is
-- left over for each message with a header, if there was memory for it.
pub recv_all-replies :
    (xs : List Message) (s : State)
    → recv_all xs s ≡ some (record s { setups = s.setups + setups xs; sent = s.sent ++ replies xs })
unfolding recv_all
recv_all-replies [] s = ground (arith, append-nil s.sent)
recv_all-replies (x ∷ xs) s =
    rw (recv_all, recv_cb_lem x s, recv_all-replies xs)
      (ground (arith, append_assoc s.sent (reply x) (replies xs)))
