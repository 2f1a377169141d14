-- ===== src/Peer.antt =====
-- HW1/p2p.py: how a worker gives tasks to another. Values, Clean, Names, Target and Transfers model the
-- code; the other modules prove.
pub mod Values
pub mod Clean
pub mod Cleaned
pub mod Again
pub mod Transfers
pub mod Once
pub mod Target
pub mod Messages
pub mod Handler
mod Examples
