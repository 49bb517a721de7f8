-- ===== src/Go.antt =====
-- What the program uses of Go and its standard library: errors, the state that effects change, the
-- file system, HTTP, time and contexts, and rules for proofs about effects.
pub mod Error
pub mod World
pub mod Exec
pub mod Os
pub mod Steps
pub mod Files
pub mod Effects
