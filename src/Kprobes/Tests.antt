-- ===== src/Kprobes/Tests.antt =====
-- Writes to test.txt and to another file.
use learn_k.Base.{ℕ}
use learn_k.Memory.{Bytes}
use learn_k.Kprobes.{State}

abbrev start : State Bytes
start = record { buffers = 0; heap = λ _. 7; size = 0; user = λ _. 65 }

-- the process has two bytes before the terminator
abbrev three : Bytes → ℕ → ℕ
three u a = 3
