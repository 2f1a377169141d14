-- ===== src/ReadyQueue.antt =====
-- HW1/worker.py: the queue of tasks that wait in a worker. State has the operations; the other modules
-- prove.
pub mod State
pub mod Order
pub mod Reserve
pub mod Steps
pub mod Lengths
mod Examples
