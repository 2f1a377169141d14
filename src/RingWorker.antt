-- ===== src/RingWorker.antt =====
-- HW3, a worker of the ring: State and Control model its state and the operations on it, Compute the
-- loop over the steps of a task; the other modules prove.
pub mod State
pub mod Control
pub mod Invariant
pub mod Keeps
pub mod Stale
pub mod Compute
mod Examples
