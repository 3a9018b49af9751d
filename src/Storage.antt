-- ===== src/Storage.antt =====
-- pyka/storage: record framing, the sparse index, one segment, and the log of one partition.
pub mod Record
pub mod Index
pub mod Segment
pub mod Log
mod RecordTests
pub mod ChainTests
