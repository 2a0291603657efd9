-- ===== src/Hook.antt =====
-- src/hook/khook.c: a kretprobe on `path_mount` that keeps the arguments of each call in a tree
-- until the call returns.
pub mod BuildPath
pub mod Pool
pub mod Session
pub mod Handlers
pub mod Unload
mod Tests
