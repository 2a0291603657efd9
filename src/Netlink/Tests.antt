-- ===== src/Netlink/Tests.antt =====
-- Three messages: one without a header, one that is answered, and one that is not delivered.
use learn_k.Base.{◌≡◌, true, some, List, [], ◌∷◌}
use learn_k.Base.Int.{pos, negsuc}
use learn_k.Netlink.{State, Answers, hello}
use learn_k.Netlink.Client as Client
use learn_k.Netlink.Replies.{Message, recv_all, recv_all-replies}

abbrev quiet : State
quiet = record { references = 0; messages = 0; setups = 0; sent = [] }

abbrev fine : Answers
fine = record { nlmsg_new = true; nlmsg_put = true; kmalloc = true; netlink_unicast = pos 32 }

abbrev gone : Answers
gone = record { nlmsg_new = true; nlmsg_put = true; kmalloc = true; netlink_unicast = negsuc 110 }

abbrev three : List Message
three =
    record { answers = fine; len = 4; nlmsg_pid = 70 }
    ∷ record { answers = fine; len = 16; nlmsg_pid = 71 }
    ∷ record { answers = gone; len = 20; nlmsg_pid = 72 }
    ∷ []

recv_all-replies_example :
    recv_all three quiet
    ≡ some (record { references = 0; messages = 0; setups = 2; sent = (71, hello) ∷ [] })
recv_all-replies_example = recv_all-replies three quiet

-- The program gets the greeting.
abbrev answered : Client.Answers
answered = record {
  socket = true;
  bind = true;
  sendto = pos 1040;
  recvfrom = pos 31;
  received = hello;
  setup = 4096;
  block = λ _. 7;
}

abbrev before : Client.State
before = record { sockets = 3; blocks = 0; sent = []; lines = [] }
