-- ===== src/Examples.antt =====
-- Concrete runs of the theorems: each applies one theorem at inputs where its conditions hold.
pub mod Setup
mod Sending
mod Receiving
mod Resolving
mod Checking
mod Allocating
mod Faulting
pub mod Heap
mod Calls
mod Screen
mod Starting
