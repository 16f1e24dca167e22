-- ===== src/Master.antt =====
-- src/master.cpp and include/master.h: the node that keeps the slaves and spreads objects over them.
pub mod State
pub mod Http
pub mod Slaves
pub mod Objects
pub mod Rest
pub mod Status
pub mod Choice
pub mod Frame
pub mod Steps
pub mod Rounds
pub mod Valid
pub mod Requests
pub mod Invariant
pub mod ObjIds
pub mod Watch
pub mod Offline
pub mod Failover
pub mod Tasks
pub mod Registry
pub mod Lookup
