-- ===== src/Coordinator.antt =====
-- HW3, the Coordinator: the tables of tasks and workers and the operations on them, in State,
-- Register, Assign, Detect and Summary; the other modules prove.
pub mod State
pub mod Register
pub mod Assign
pub mod Detect
pub mod Summary
pub mod Invariant
pub mod Steps
pub mod Scan
pub mod Bury
pub mod Keeps
pub mod History
pub mod Target
pub mod Commits
pub mod Requests
pub mod Detector
mod Examples
