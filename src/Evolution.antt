-- ===== src/Evolution.antt =====
-- HW4: the ASCII evolution. Rules, Board, Partition and Distributed model the code; Torus is the
-- specification, a board of 80 rows and 160 columns without edges; the other modules prove.
pub mod Rules
pub mod Board
pub mod Partition
pub mod Distributed
pub mod Torus
pub mod Refines
pub mod Agree
pub mod Ramp
mod Examples
