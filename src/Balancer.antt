-- ===== src/Balancer.antt =====
-- mds/MDBalancer.cc: which servers a server exports to.
pub mod Load
pub mod Tree
pub mod Exports
pub mod Rebalance
pub mod Matching
pub mod Heartbeats
pub mod Targets
mod Tests
