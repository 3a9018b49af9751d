-- ===== src/Topic.antt =====
-- src/pyka/topic: which partition a record goes to, and when a log is synced.
pub mod Partitioner
pub mod Policy
pub mod Name
pub mod Topics
mod Tests
mod TopicsTests
