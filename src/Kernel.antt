-- ===== src/Kernel.antt =====
-- What the modules share of the kernel they run in: return codes, a run that may block or crash,
-- and the interface to the memory of a user process.
mod Outcome
mod User
pub mod Flat
pub use Outcome.*
pub use User.*
