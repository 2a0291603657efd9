-- ===== src/GlobalFifo.antt =====
-- src/globalfifo/main.c: a blocking FIFO device of 4096 bytes, shared by any number of threads.
-- `Machine` has the handlers as steps of a thread; `Contents` says what one transfer does to the
-- queued bytes, `Flow` what any interleaving does; `Mutex` is about mutual exclusion and `Wakeup`
-- about waiting.
pub mod Machine
pub mod Contents
pub mod Flow
pub mod Mutex
pub mod Wakeup
pub mod Seek
pub mod Setup
mod Tests
