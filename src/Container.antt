-- ===== src/Container.antt =====
-- src/list/container.c: a linked list, a queue and a stack over <linux/list.h>.
-- `Links` is the interface to that header and `Circular` an implementation of it; `Core` has the
-- functions of the file; `Cells` says what list a handle stands for.
pub mod Links
pub mod Circular
pub mod Core
pub mod Cells
pub mod Ends
pub mod Service
pub mod Walk
pub mod Text
pub mod Printed
pub mod ReadBack
pub mod Init
pub mod Log
pub mod Splice
pub mod Delete
mod Tests
