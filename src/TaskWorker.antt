-- ===== src/TaskWorker.antt =====
-- HW1/worker.py: a worker of the Master, which takes tasks from it and from other workers. State, Tasks
-- and Moves model the code; the other modules prove.
pub mod State
pub mod Tasks
pub mod Moves
pub mod Room
pub mod Keeps
pub mod Promise
mod Examples
