-- ===== src/Master.antt =====
-- HW1/master.py: the Master, which gives tasks to four workers. State, Clock, Assign, Process and
-- Transfer model the code; the other modules prove.
pub mod State
pub mod Clock
pub mod Assign
pub mod Process
pub mod Transfer
pub mod Receive
pub mod Ticks
pub mod Sends
pub mod Choose
pub mod Life
pub mod Balance
pub mod Refines
pub mod Outcomes
pub mod Costs
pub mod Moves
pub mod Rounds
pub mod Done
pub mod Stops
pub mod Finish
mod Examples
