-- ===== src/Data.antt =====
-- contexts/data.
pub mod Ids
pub mod Aggregator
pub mod Region
pub mod Mem
pub mod Registry
pub mod Factory
pub mod Handlers
pub mod TdMap
