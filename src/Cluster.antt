-- ===== src/Cluster.antt =====
-- src/pyka/cluster: which broker owns which partition.
pub mod Ring
pub mod HashRing
pub mod Environ
mod Tests
