-- ===== src/Core.antt =====
-- The in-memory index, crates/batuta-core/src: the name arena, the node table and the changes that
-- are applied to it.
pub mod Names
pub mod Index
pub mod Watch
pub mod Totals
pub mod Builder
pub mod Depths
pub mod Matching
pub mod Scan
pub mod NameScan
pub mod Snapshot
mod Tests
