-- ===== src/Barrier.antt =====
-- HW4/src/assigner/barrier.py: the handler threads of `run_rounds` and its main loop, which meet in
-- every round. Sections models the code under the lock; the other modules prove.
pub mod Sections
pub mod Invariant
pub mod Keeps
pub mod Order
mod Examples
